-- ===== src/Database/Releasing.antt =====
-- The connection of a thread while a job of Homework6/EduServer_IOCP/PlayerDBContext.cpp runs,
-- whatever the calls of ODBC answer.
use gsp.Prelude.{
  Effect, ◌&&◌, ◌∙◌, sym, ==→eq, ==_refl, ap, update, ℕ, ◌≡◌, refl, Bool, true, false, not, Option,
  none, some, inl, inr, ◌==◌, arith, if◌then◌else◌, Bool-cases, length,
}
use gsp.Database.State.{
  Thread, Job, sql_c_long, load_player_data, update_player_position_data,
  update_player_comment_data, update_player_valid_data, SqlConn, Field, CType, at_comment,
  at_result, Statement, sql_load_player, sql_update_player_position, sql_update_player_comment,
  sql_update_player_valid, Odbc, World, M, pure, ◌>>=◌,
}
use gsp.Database.{
  is_db_worker, db_helper, free_all, delete_db_helper, execute, fetch_row, bind_param,
  bind_result_column, bind_param_int, bind_param_float, bind_param_bool, bind_param_text,
  bind_result_column_int, bind_result_column_float, bind_result_column_bool,
  bind_result_column_text,
}
use gsp.Database.Contexts.{
  run_statement, declare_result, has_result, load_player_binds, load_player, run_update,
  position_binds, update_player_position, comment_binds, update_player_comment, valid_binds,
  update_player_valid, sql_execute,
}

-- What the constructor of `DBHelper` asserts.
abbrev pub is_ready : Thread → (ℕ → SqlConn) → Bool
is_ready t pool =
    let c : SqlConn = pool t.worker_thread_id in
    is_db_worker t.thread_type && (not c.using_now && not (c.sql_hstmt == 0))

module _ {D : Type 0} where
  -- The calls return, and the connections and the handle stay as they are.
  pub record Keeps {A : Type 0} (m : World D → Option (A × World D)) : Type 0 where
    pub run :
        (w : World D)
        → (a : A) × (w' : World D) × (m w ≡ some (a, w')) × (w'.conn_pool ≡ w.conn_pool)

  bind-Keeps :
      {A B : Type 0} (m : Effect (World D) A) (f : A → Effect (World D) B)
      → Keeps m
      → ((a : A) → Keeps (f a))
      → Keeps (m >>= f)
  bind-Keeps m f k l = record {
    run = λ w.
        let (a, w₁, e₁, p₁) = k.run w in
        let (b, w₂, e₂, p₂) = (l a).run w₁ in
        (b, w₂, ap (λ r. elim r [ none ↦ none | some (x, v) ↦ f x v ]) e₁ ∙ e₂, p₂ ∙ p₁);
  }

abbrev pub taken : Thread → (ℕ → SqlConn) → ℕ → SqlConn
taken t pool =
    update pool t.worker_thread_id (record (pool t.worker_thread_id) { using_now = true })

module _ (o : Odbc) where
  bind_param-Keeps : (type : CType) (size : ℕ) (f : Field) → Keeps (bind_param o type size f)
  unfolding bind_param
  bind_param-Keeps type size f = record { run = λ w. (_, _, refl, refl) }

  bind_result_column-Keeps :
      (type : CType) (size : ℕ) (f : Field) → Keeps (bind_result_column o type size f)
  unfolding bind_result_column
  bind_result_column-Keeps type size f = record { run = λ w. (_, _, refl, refl) }

  execute-Keeps : (s : Statement) → Keeps (execute o s)
  unfolding execute
  execute-Keeps s = record { run = λ w. (_, _, refl, refl) }

  fetch_row-Keeps : Keeps (fetch_row o)
  unfolding fetch_row
  fetch_row-Keeps = record { run = λ w. (_, _, refl, refl) }

  pure-Keeps : {A : Type 0} (a : A) → Keeps {A = A} (pure {S = World o.Driver} a)
  pure-Keeps a = record { run = λ w. (a, w, refl, refl) }

  if-Keeps : (b : Bool) (m : M o Bool) → Keeps m → Keeps (if b then m else pure false)
  if-Keeps true m k = record { run = k.run }
  if-Keeps false m k = record { run = λ w. (false, w, refl, refl) }

  run_statement-Keeps : (s : Statement) → Keeps (run_statement o s)
  unfolding run_statement
  run_statement-Keeps s =
      bind-Keeps _ _ (execute-Keeps s) (λ ok. if-Keeps ok (fetch_row o) fetch_row-Keeps)

  load_player_binds-Keeps : Keeps (load_player_binds o)
  unfolding load_player_binds bind_param_int bind_result_column_text bind_result_column_float
      bind_result_column_bool
  load_player_binds-Keeps = bind-Keeps _ _ (bind_param-Keeps _ _ _) (λ _.
      bind-Keeps _ _ (bind_result_column-Keeps _ _ _) (λ _.
        bind-Keeps _ _ (bind_result_column-Keeps _ _ _) (λ _.
          bind-Keeps _ _ (bind_result_column-Keeps _ _ _) (λ _.
            bind-Keeps _ _ (bind_result_column-Keeps _ _ _) (λ _.
              bind-Keeps _ _ (bind_result_column-Keeps _ _ _)
                (λ _. bind_result_column-Keeps _ _ _))))))

  position_binds-Keeps : Keeps (position_binds o)
  unfolding position_binds bind_param_int bind_param_float
  position_binds-Keeps = bind-Keeps _ _ (bind_param-Keeps _ _ _) (λ _.
      bind-Keeps _ _ (bind_param-Keeps _ _ _) (λ _.
        bind-Keeps _ _ (bind_param-Keeps _ _ _)
          (λ _. bind-Keeps _ _ (bind_param-Keeps _ _ _) (λ _. pure-Keeps tt))))

  comment_binds-Keeps : Keeps (comment_binds o)
  unfolding comment_binds bind_param_int bind_param_text
  comment_binds-Keeps = record {
    run = λ w.
        (bind-Keeps _ _ (bind_param-Keeps _ _ _) (λ _.
            bind-Keeps _ _ (bind_param-Keeps _ (length w.variables.comment) at_comment)
              (λ _. pure-Keeps tt))).run
          w;
  }

  valid_binds-Keeps : Keeps (valid_binds o)
  unfolding valid_binds bind_param_int bind_param_bool
  valid_binds-Keeps =
      bind-Keeps _ _ (bind_param-Keeps _ _ _)
        (λ _. bind-Keeps _ _ (bind_param-Keeps _ _ _) (λ _. pure-Keeps tt))

  module _ (t : Thread) (pool : ℕ → SqlConn)
      (free : (pool t.worker_thread_id).using_now ≡ false) where
    -- From a connection in use, the rest of the job returns and frees it.
    record Ends {A : Type 0} (m : M o A) : Type 0 where
      run :
          (w : World o.Driver)
          → w.conn_pool ≡ taken t pool
          → (a : A) × (w' : World o.Driver) × (m w ≡ some (a, w'))
            × ((i : ℕ) → w'.conn_pool i ≡ pool i)

    bind-Ends :
        {A B : Type 0} (m : M o A) (f : A → M o B)
        → Keeps m
        → ((a : A) → Ends (f a))
        → Ends (m >>= f)
    bind-Ends m f k l = record {
      run = λ w h.
          let (a, w₁, e₁, p₁) = k.run w in
          let (b, w₂, e₂, p₂) = (l a).run w₁ (p₁ ∙ h) in
          (b, w₂, ap (λ r. elim r [ none ↦ none | some (x, v) ↦ f x v ]) e₁ ∙ e₂, p₂);
    }

    restored :
        (i : ℕ)
        → update
            (taken t pool)
            t.worker_thread_id
            (record (taken t pool t.worker_thread_id) { using_now = false })
            i
          ≡ pool i
    restored i = elim (Bool-cases (t.worker_thread_id == i)) [
      | inl q ↦
          rw (sym (==→eq t.worker_thread_id i q), ==_refl t.worker_thread_id)
            (ap (λ b. record (pool t.worker_thread_id) { using_now = b }) (sym free))
      | inr q ↦ rw q refl
    ]

    delete_db_helper-Ends : {A : Type 0} (a : A) → Ends (delete_db_helper o t >>= λ _. pure a)
    unfolding delete_db_helper free_all
    delete_db_helper-Ends a = record { run = λ w h. (a, _, refl, λ i. rw h (restored i)) }

    load_player-Ends : Ends (
        load_player_binds o >>= λ _.
        run_statement o sql_load_player >>= λ a. delete_db_helper o t >>= λ _. pure a)
    load_player-Ends =
        bind-Ends _ _ load_player_binds-Keeps
          (λ _. bind-Ends _ _ (run_statement-Keeps sql_load_player) delete_db_helper-Ends)

    run_update-Ends :
        (m : M o (Unit {0})) (s : Statement)
        → Keeps m
        → Ends (
            declare_result o >>= λ _. m >>= λ _. bind_result_column_int o at_result >>= λ _.
            run_statement o s >>= λ a. has_result o a >>= λ b. delete_db_helper o t >>= λ _. pure b)
    unfolding bind_result_column_int
    run_update-Ends m s k =
        bind-Ends _ _ (record { run = λ w. (tt, _, refl, refl) })
          (λ _. bind-Ends m _ k (λ _.
            bind-Ends _ _ (bind_result_column-Keeps sql_c_long 4 at_result) (λ _.
              bind-Ends _ _ (run_statement-Keeps s) (λ a.
                bind-Ends (has_result o a) _ (record { run = λ w. (_, w, refl, refl) })
                  delete_db_helper-Ends))))

  -- The world in which the constructor of `DBHelper` leaves a thread that is ready.
  abbrev pub constructed : Thread → World o.Driver → World o.Driver
  constructed t w = record w {
    conn_pool = taken t w.conn_pool;
    helper = record {
      current_sql_hstmt = (w.conn_pool t.worker_thread_id).sql_hstmt;
      current_result_col = 1;
      current_bind_param = 1;
    };
  }

  pub db_helper-ready :
      (t : Thread) (w : World o.Driver)
      → db_helper o t w ≡ (if is_ready t w.conn_pool then some (tt, constructed t w) else none)
  unfolding db_helper
  db_helper-ready t w = elim (Bool-cases (is_db_worker t.thread_type)) [
    | inl p ↦ elim (Bool-cases (w.conn_pool t.worker_thread_id).using_now) [
      | inl q ↦ rw (p, q) refl
      | inr q ↦ elim (Bool-cases ((w.conn_pool t.worker_thread_id).sql_hstmt == 0)) [
        | inl r ↦ rw (p, q, r) refl
        | inr r ↦ rw (p, q, r) refl
      ]
    ]
    | inr p ↦ rw p refl
  ]

  -- What a job does, by whether the constructor's assertions hold.
  abbrev pub Settled : World o.Driver → Option (Bool × World o.Driver) → Bool → Type 0
  Settled w r false = r ≡ none
  Settled w r true =
      (b : Bool) × (w' : World o.Driver) × (r ≡ some (b, w'))
      × ((i : ℕ) → w'.conn_pool i ≡ w.conn_pool i)

  using_now-ready :
      (t : Thread) (pool : ℕ → SqlConn)
      → is_ready t pool ≡ true
      → (pool t.worker_thread_id).using_now ≡ false
  using_now-ready t pool h = ground arith

  frame :
      (t : Thread) (w : World o.Driver) (m : M o Bool)
      → ((free : (w.conn_pool t.worker_thread_id).using_now ≡ false) → Ends t w.conn_pool free m)
      → Settled w ((db_helper o t >>= λ _. m) w) (is_ready t w.conn_pool)
  frame t w m ends = elim (Bool-cases (is_ready t w.conn_pool)) [
    | inl p ↦
        let e = rw p at (db_helper-ready t w) in
        let (b, w', e', restored) =
          (ends (using_now-ready t w.conn_pool p)).run (constructed t w) refl in
        rw p (b, w', ap (λ r. elim r [ none ↦ none | some (x, v) ↦ m v ]) e ∙ e', restored)
    | inr p ↦
        let e = rw p at (db_helper-ready t w) in
        rw p (ap (λ r. elim r [ none ↦ none | some (x, v) ↦ m v ]) e)
  ]

-- Whatever ODBC answers to any call: a job of any class crashes exactly where its thread is no
-- database thread, its connection is in use or has no statement handle; otherwise it returns, and
-- every connection is as it was, so that the thread can run its next job.
pub sql_execute-Settled :
    (o : Odbc) (job : Job) (t : Thread) (w : World o.Driver)
    → Settled o w (sql_execute o job t w) (is_ready t w.conn_pool)
unfolding load_player run_update update_player_position update_player_comment update_player_valid
sql_execute-Settled o load_player_data t w = frame o t w _ (load_player-Ends o t w.conn_pool)
sql_execute-Settled o update_player_position_data t w = frame o t w _ (λ f.
    run_update-Ends o t w.conn_pool f (position_binds o) sql_update_player_position
      (position_binds-Keeps o))
sql_execute-Settled o update_player_comment_data t w = frame o t w _ (λ f.
    run_update-Ends o t w.conn_pool f (comment_binds o) sql_update_player_comment
      (comment_binds-Keeps o))
sql_execute-Settled o update_player_valid_data t w = frame o t w _ (λ f.
    run_update-Ends o t w.conn_pool f (valid_binds o) sql_update_player_valid (valid_binds-Keeps o))
