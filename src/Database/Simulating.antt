-- ===== src/Database/Simulating.antt =====
-- The jobs of Homework6/EduServer_IOCP/PlayerDBContext.cpp over any driver that keeps to the
-- documentation, and over the driver that does just that.
use gsp.Prelude.{ℕ, ◌≡◌, refl, not, ◌==◌}
use gsp.Database.State.{
  Thread, Job, load_player_data, update_player_position_data, update_player_comment_data,
  update_player_valid_data, Field, at_result, at_local_len, Statement, sql_load_player,
  sql_update_player_position, sql_update_player_comment, sql_update_player_valid, Odbc, World, M,
  SqlConn,
}
use gsp.Database.Simulation.{
  Simulates, seen_after, bind_lem, pure_lem, assert_then, Agrees, run_statement_lem, has_result_lem,
  load_player_binds_lem, position_binds_lem, comment_binds_lem, valid_binds_lem,
}
use gsp.Database.Laws.{View, type_of, reference, IsLawful}
use gsp.Database.{
  db_helper, free_all, delete_db_helper, execute, fetch_row, bind_param, bind_result_column,
  bind_result_column_int, is_db_worker,
}
use gsp.Database.Contexts.{
  load_player, run_update, position_binds, update_player_position, comment_binds,
  update_player_comment, valid_binds, update_player_valid, sql_execute,
}

module _ (o : Odbc) (l : IsLawful o) where
  -- The world with what can be seen of the driver.
  abbrev pub seen : World o.Driver → World View
  seen w = record {
    driver = l.view w.driver;
    conn_pool = w.conn_pool;
    helper = w.helper;
    variables = w.variables;
  }

  bind_param_lem :
      (f : Field) (size : ℕ)
      → Simulates seen (bind_param o (type_of f) size f) (bind_param reference (type_of f) size f)
  unfolding bind_param
  bind_param_lem f size = record {
    run = λ w.
        let p =
          l.binds_parameter w.helper.current_sql_hstmt w.helper.current_bind_param f size
            w.driver in
        rw (p.0, p.1) refl;
  }

  bind_result_column_lem :
      (f : Field) (size : ℕ)
      → Simulates seen
          (bind_result_column o (type_of f) size f)
          (bind_result_column reference (type_of f) size f)
  unfolding bind_result_column
  bind_result_column_lem f size = record {
    run = λ w.
        let e =
          l.binds_col w.helper.current_sql_hstmt w.helper.current_result_col f size at_local_len
            w.driver in
        rw e refl;
  }

  execute_lem : (s : Statement) → Simulates seen (execute o s) (execute reference s)
  unfolding execute
  execute_lem s = record {
    run = λ w.
        let p = l.executes w.helper.current_sql_hstmt s w.variables w.driver in rw (p.0, p.1) refl;
  }

  fetch_row_lem : Simulates seen (fetch_row o) (fetch_row reference)
  unfolding fetch_row
  fetch_row_lem = record {
    run = λ w.
        let p = l.fetches w.helper.current_sql_hstmt w.variables w.driver in
        rw (p.0, p.1, p.2) refl;
  }

  free_all_lem : Simulates seen (free_all o) (free_all reference)
  unfolding free_all
  free_all_lem = record { run = λ w. rw (l.frees, l.frees, l.frees) refl }

  agrees : Agrees o reference seen
  agrees = record {
    variables = λ w. refl;
    declares = record { run = λ w. refl };
    binds_param = bind_param_lem;
    binds_col = bind_result_column_lem;
    executes = execute_lem;
    fetches = fetch_row_lem;
  }

  db_helper_lem : (t : Thread) → Simulates seen (db_helper o t) (db_helper reference t)
  unfolding db_helper
  db_helper_lem t = assert_then seen (is_db_worker t.thread_type) _ _ (record {
    run = λ w.
        let c : SqlConn = w.conn_pool t.worker_thread_id in
        let last = assert_then seen (not (c.sql_hstmt == 0)) _ _ (record { run = λ w'. refl }) in
        (assert_then seen (not c.using_now) _ _ (record { run = λ w'. last.run _ })).run w;
  })

  delete_db_helper_lem :
      (t : Thread) → Simulates seen (delete_db_helper o t) (delete_db_helper reference t)
  unfolding delete_db_helper
  delete_db_helper_lem t =
      bind_lem seen (free_all o) (free_all reference) _ _ free_all_lem
        (λ _. record { run = λ w. refl })

  load_player_lem : (t : Thread) → Simulates seen (load_player o t) (load_player reference t)
  unfolding load_player
  load_player_lem t = bind_lem seen _ _ _ _ (db_helper_lem t) (λ _.
      bind_lem seen _ _ _ _ (load_player_binds_lem o reference seen agrees) (λ _.
        bind_lem seen _ _ _ _ (run_statement_lem o reference seen agrees sql_load_player)
          (λ fetched. bind_lem seen _ _ _ _ (delete_db_helper_lem t) (λ _. pure_lem seen fetched))))

  run_update_lem :
      (m : M o (Unit {0})) (n : M reference (Unit {0})) (s : Statement) (t : Thread)
      → Simulates seen m n
      → Simulates seen (run_update o m s t) (run_update reference n s t)
  unfolding run_update bind_result_column_int
  run_update_lem m n s t sim = bind_lem seen _ _ _ _ (db_helper_lem t) (λ _.
      bind_lem seen _ _ _ _ agrees.declares (λ _. bind_lem seen m n _ _ sim (λ _.
        bind_lem seen _ _ _ _ (bind_result_column_lem at_result 4) (λ _.
          bind_lem seen _ _ _ _ (run_statement_lem o reference seen agrees s) (λ fetched.
            bind_lem seen _ _ _ _ (has_result_lem o reference seen agrees fetched) (λ changed.
              bind_lem seen _ _ _ _ (delete_db_helper_lem t) (λ _. pure_lem seen changed)))))))

  update_player_position_lem :
      (t : Thread)
      → Simulates seen (update_player_position o t) (update_player_position reference t)
  unfolding update_player_position
  update_player_position_lem t =
      run_update_lem (position_binds o) (position_binds reference) sql_update_player_position t
        (position_binds_lem o reference seen agrees)

  update_player_comment_lem :
      (t : Thread) → Simulates seen (update_player_comment o t) (update_player_comment reference t)
  unfolding update_player_comment
  update_player_comment_lem t =
      run_update_lem (comment_binds o) (comment_binds reference) sql_update_player_comment t
        (comment_binds_lem o reference seen agrees)

  update_player_valid_lem :
      (t : Thread) → Simulates seen (update_player_valid o t) (update_player_valid reference t)
  unfolding update_player_valid
  update_player_valid_lem t =
      run_update_lem (valid_binds o) (valid_binds reference) sql_update_player_valid t
        (valid_binds_lem o reference seen agrees)

  sql_execute_lem :
      (job : Job) (t : Thread) → Simulates seen (sql_execute o job t) (sql_execute reference job t)
  sql_execute_lem load_player_data = load_player_lem
  sql_execute_lem update_player_position_data = update_player_position_lem
  sql_execute_lem update_player_comment_data = update_player_comment_lem
  sql_execute_lem update_player_valid_data = update_player_valid_lem

-- Over any driver that keeps to the documentation, a job of any of the four classes does what it
-- does over the driver that does just what the documentation says: it crashes or returns the same
-- boolean, with the same variables, connections and helper, and the statements and the table that
-- can be seen of the driver are the same.
pub sql_execute-seen :
    (o : Odbc) (l : IsLawful o) (job : Job) (t : Thread) (w : World o.Driver)
    → seen_after (seen o l) (sql_execute o job t w) ≡ sql_execute reference job t (seen o l w)
sql_execute-seen o l job t w = (sql_execute_lem o l job t).run w
