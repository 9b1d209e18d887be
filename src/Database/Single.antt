-- ===== src/Database/Single.antt =====
-- The jobs of Homework6/EduServer_IOCP/PlayerDBContext.cpp on the one statement that they use, and
-- what each is for.
use gsp.Prelude.{
  ℕ, ◌≡◌, refl, sym, Bool, true, false, not, Option, none, some, inl, inr, List, [], ◌∷◌, ◌==◌,
  take, ◌*◌, ◌++◌, length, update, ==_refl, Option-cases, arith,
}
use gsp.Database.State.{
  SqlConn, DbHelper, Variables, Field, at_player_id, at_pos_x, at_pos_y, at_pos_z, at_is_valid,
  at_player_name, at_comment, at_result, at_local_len, Job, load_player_data,
  update_player_position_data, update_player_comment_data, update_player_valid_data, Statement,
  sql_load_player, sql_update_player_position, sql_update_player_comment, sql_update_player_valid,
  sql_success, Odbc, World, M, ◌>>=◌,
}
use gsp.Database.Table.{
  PlayerRow, Table, find, row_count, row_count-none, row_count-some, change, set_position,
  set_comment, set_valid, sp_load_player, sp_update_player_position, sp_update_player_comment,
  sp_update_player_valid,
}
use gsp.Database.Laws.{
  Stmt, clean, sql_null_data, write_row, number_of, Local, add_param, add_col, executed, fetched,
  freed, View, reference,
}
use gsp.Database.{
  bind_param_int, bind_param_float, bind_param_bool, bind_param_text, bind_result_column_int,
  bind_result_column_text, bind_result_column_float, bind_result_column_bool, execute, fetch_row,
  bind_param, bind_result_column,
}
use gsp.Database.Contexts.{
  run_statement, has_result, load_player_binds, position_binds, comment_binds, valid_binds,
}
use gsp.Database.Simulation.{Agrees}

-- A driver with one statement, whatever the handle.
abbrev pub single : Odbc
single = record {
  Driver = Local;
  bind_parameter = λ h i type f size d. (sql_success, (add_param i f d.0, d.1));
  bind_col = λ h j type f size indicator d. (sql_success, (add_col j f size indicator d.0, d.1));
  exec_direct = λ h s v d. executed s v d;
  fetch = λ h v d. let r = fetched v d.0 in (r.0, (r.1.0, (r.1.1, d.1)));
  free_stmt = λ h option d. (freed option d.0, d.1);
}

-- The statement of the running job.
abbrev pub local : World View → World Local
local w = record {
  driver = (w.driver.0 w.helper.current_sql_hstmt, w.driver.1);
  conn_pool = w.conn_pool;
  helper = w.helper;
  variables = w.variables;
}

pub update_self : (f : ℕ → Stmt) (h : ℕ) (s : Stmt) → update f h s h ≡ s
update_self f h s = rw ==_refl refl

pub local-Agrees : Agrees reference single local
unfolding bind_param bind_result_column execute fetch_row
local-Agrees = record {
  variables = λ w. refl;
  declares = record { run = λ w. refl };
  binds_param = λ f size. record { run = λ w. rw update_self refl };
  binds_col = λ f size. record { run = λ w. rw update_self refl };
  executes = λ s. record { run = λ w. rw update_self refl };
  fetches = record { run = λ w. rw update_self refl };
}

-- What a job is for: whether the player is there, the variables, and the table.
abbrev pub is_there : Option PlayerRow → Bool
is_there none = false
is_there (some r) = true

-- The lengths of a player's columns, the last first.
abbrev pub lengths : PlayerRow → List ℕ
lengths r =
    elim r.note [ none ↦ sql_null_data | some s ↦ 2 * length s ]
    ∷ 1
    ∷ 4
    ∷ 4
    ∷ 4
    ∷ 2 * length r.name
    ∷ []

-- An array of `n` characters has n - 1 of a text. The comment stays where the row has none. The
-- lengths go astray.
abbrev pub loaded : Option PlayerRow → Variables → Variables
loaded none v = v
loaded (some r) v = record v {
  player_name = take 31 r.name;
  pos_x = r.x;
  pos_y = r.y;
  pos_z = r.z;
  is_valid = not (r.valid == 0);
  comment = elim r.note [ none ↦ v.comment | some s ↦ take 255 s ];
  stray = lengths r ++ v.stray;
}

abbrev pub counted : Variables → Table → Variables
counted v t = record v { result = row_count v.player_id t; stray = 4 ∷ v.stray }

abbrev pub outcome : Job → Variables → Table → Bool × (Variables × Table)
outcome load_player_data v t = (is_there (find v.player_id t), (loaded (find v.player_id t) v, t))
outcome update_player_position_data v t = (
  is_there (find v.player_id t),
  (counted v t, change (set_position v.pos_x v.pos_y v.pos_z) v.player_id t),
)
outcome update_player_comment_data v t =
    (is_there (find v.player_id t), (counted v t, change (set_comment v.comment) v.player_id t))
outcome update_player_valid_data v t = (
  is_there (find v.player_id t),
  (counted v t, change (set_valid (number_of v.is_valid)) v.player_id t),
)

abbrev start_helper : ℕ → DbHelper
start_helper h = record { current_sql_hstmt = h; current_result_col = 1; current_bind_param = 1 }

-- A world whose running job has this.
abbrev pub world : ℕ → (ℕ → SqlConn) → Stmt → Table → ℕ → ℕ → Variables → World Local
world h pool s t i j v = record {
  driver = (s, t);
  conn_pool = pool;
  helper = record { current_sql_hstmt = h; current_result_col = j; current_bind_param = i };
  variables = v;
}

unfoldable pub load_bound : Stmt
load_bound = record {
  params = (1, at_player_id) ∷ [];
  cols =
      (6, (at_comment, (512, at_local_len)))
      ∷ (5, (at_is_valid, (1, at_local_len)))
      ∷ (4, (at_pos_z, (4, at_local_len)))
      ∷ (3, (at_pos_y, (4, at_local_len)))
      ∷ (2, (at_pos_x, (4, at_local_len)))
      ∷ (1, (at_player_name, (64, at_local_len)))
      ∷ [];
  rows = none;
}

pub bind_single :
    (h : ℕ) (pool : ℕ → SqlConn) (t : Table) (v : Variables)
    → load_player_binds single (world h pool clean t 1 1 v)
      ≡ some (tt, world h pool load_bound t 2 7 v)
unfolding load_player_binds bind_param_int bind_result_column_text bind_result_column_float
    bind_result_column_bool bind_param bind_result_column load_bound
bind_single h pool t v = refl

pub load_single :
    (h : ℕ) (pool : ℕ → SqlConn) (t : Table) (v : Variables)
    → run_statement single sql_load_player (world h pool load_bound t 2 7 v)
      ≡ some (
        is_there (find v.player_id t),
        world h pool (record load_bound { rows = some [] }) t 2 7 (loaded (find v.player_id t) v),
      )
unfolding run_statement execute fetch_row write_row sp_load_player load_bound
load_single h pool t v = elim (Option-cases (find v.player_id t)) [
  | inl e ↦ rw e refl
  | inr (r, e) ↦ elim (Option-cases r.note) [ inl n ↦ rw (e, n) refl | inr (s, n) ↦ rw (e, n) refl ]
]

counted-is_there : (uid : ℕ) (t : Table) → not (row_count uid t == 0) ≡ is_there (find uid t)
counted-is_there uid t = elim (Option-cases (find uid t)) [
  | inl e ↦ rw (e, row_count-none uid t e) refl
  | inr (r, e) ↦ ground (arith, row_count-some uid t r e)
]

-- The rest of an update, from its parameters on.
unfoldable pub update_rest : Statement → M single Bool
update_rest s = bind_result_column_int single at_result >>= λ _.
    run_statement single s >>= λ fetched. has_result single fetched

unfoldable pub bound : List (ℕ × Field) → Stmt
bound params = record {
  params = params;
  cols = (1, (at_result, (4, at_local_len))) ∷ [];
  rows = some [];
}

abbrev pub zeroed : Variables → Variables
zeroed v = record v { result = 0 }

abbrev pub position_params : List (ℕ × Field)
position_params = (4, at_pos_z) ∷ (3, at_pos_y) ∷ (2, at_pos_x) ∷ (1, at_player_id) ∷ []

pub position_single :
    (h : ℕ) (pool : ℕ → SqlConn) (t : Table) (v : Variables)
    → (position_binds single >>= λ _. update_rest sql_update_player_position)
        (world h pool clean t 1 1 (zeroed v))
      ≡ some (
        is_there (find v.player_id t),
        world h pool
            (bound position_params)
            (change (set_position v.pos_x v.pos_y v.pos_z) v.player_id t)
            5
            2
            (counted v t),
      )
unfolding update_rest position_binds bind_param_int bind_param_float bind_result_column_int
    bind_param bind_result_column run_statement execute fetch_row write_row
    sp_update_player_position bound
position_single h pool t v = rw (sym (counted-is_there v.player_id t)) refl

abbrev pub comment_params : List (ℕ × Field)
comment_params = (2, at_comment) ∷ (1, at_player_id) ∷ []

pub comment_single :
    (h : ℕ) (pool : ℕ → SqlConn) (t : Table) (v : Variables)
    → (comment_binds single >>= λ _. update_rest sql_update_player_comment)
        (world h pool clean t 1 1 (zeroed v))
      ≡ some (
        is_there (find v.player_id t),
        world h pool
            (bound comment_params)
            (change (set_comment v.comment) v.player_id t)
            3
            2
            (counted v t),
      )
unfolding update_rest comment_binds bind_param_int bind_param_text bind_result_column_int bind_param
    bind_result_column run_statement execute fetch_row write_row sp_update_player_comment bound
comment_single h pool t v = rw (sym (counted-is_there v.player_id t)) refl

abbrev pub valid_params : List (ℕ × Field)
valid_params = (2, at_is_valid) ∷ (1, at_player_id) ∷ []

pub valid_single :
    (h : ℕ) (pool : ℕ → SqlConn) (t : Table) (v : Variables)
    → (valid_binds single >>= λ _. update_rest sql_update_player_valid)
        (world h pool clean t 1 1 (zeroed v))
      ≡ some (
        is_there (find v.player_id t),
        world h pool
            (bound valid_params)
            (change (set_valid (number_of v.is_valid)) v.player_id t)
            3
            2
            (counted v t),
      )
unfolding update_rest valid_binds bind_param_int bind_param_bool bind_result_column_int bind_param
    bind_result_column run_statement execute fetch_row write_row sp_update_player_valid bound
valid_single h pool t v = rw (sym (counted-is_there v.player_id t)) refl
