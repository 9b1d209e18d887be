-- ===== src/Database.antt =====
-- The database thread's side of a job, Homework6/EduServer_IOCP: DBHelper.cpp, DBContext.cpp and
-- PlayerDBContext.cpp.
pub mod State
pub mod Contexts
pub mod Table
pub mod Laws
mod Simulation
mod Simulating
pub mod Releasing
pub mod Single
pub mod Jobs
pub mod RoundTrip
mod Connections
mod Tests
use gsp.Prelude.{
  ℕ, ◌+◌, ◌*◌, ◌%◌, ◌^◌, Bool, true, false, not, Option, some, List, ◌==◌, if◌then◌else◌, length,
}
use gsp.Database.State.{
  ThreadType, thread_db_worker, Thread, SqlConn, DbHelper, Variables, Field, at_local_len, CType,
  sql_c_long, sql_c_float, sql_c_tinyint, sql_c_wchar, Statement, SqlReturn, sql_success,
  sql_success_with_info, sql_unbind, sql_reset_params, sql_close, Odbc, World, M, pure, ◌>>=◌, ◌>>◌,
  crash_assert, update,
}

-- `SQL_SUCCESS == ret || SQL_SUCCESS_WITH_INFO == ret`
abbrev pub succeeded : SqlReturn → Bool
succeeded sql_success = true
succeeded sql_success_with_info = true
succeeded _ = false

abbrev pub is_db_worker : ThreadType → Bool
is_db_worker thread_db_worker = true
is_db_worker _ = false

-- `++` on a SQLSMALLINT
abbrev pub next : ℕ → ℕ
next i = (i + 1) % 2 ^ 16

module _ (o : Odbc) where
  abbrev conn : Thread → M o SqlConn
  conn t w = some (w.conn_pool t.worker_thread_id, w)

  abbrev put_conn : Thread → SqlConn → M o (Unit {0})
  put_conn t c w = some (tt, record w { conn_pool = update w.conn_pool t.worker_thread_id c })

  abbrev put_helper : DbHelper → M o (Unit {0})
  put_helper h w = some (tt, record w { helper = h })

  -- The constructor of `DBHelper`.
  unfoldable pub db_helper : Thread → M o (Unit {0})
  db_helper t = do
    crash_assert (is_db_worker t.thread_type)
    c ← conn t
    crash_assert (not c.using_now)
    put_helper
        (record { current_sql_hstmt = c.sql_hstmt; current_result_col = 1; current_bind_param = 1 })
    crash_assert (not (c.sql_hstmt == 0))
    put_conn t (record c { using_now = true })

  unfoldable pub free_all : M o (Unit {0})
  free_all w =
      let h : ℕ = w.helper.current_sql_hstmt in
      let d : o.Driver = o.free_stmt h sql_unbind w.driver in
      let d' : o.Driver = o.free_stmt h sql_reset_params d in
      some (tt, record w { driver = o.free_stmt h sql_close d' })

  -- Its destructor.
  unfoldable pub delete_db_helper : Thread → M o (Unit {0})
  delete_db_helper t = do free_all; c ← conn t; put_conn t (record c { using_now = false })

  unfoldable pub execute : Statement → M o Bool
  execute statement w =
      let r : SqlReturn × o.Driver =
        o.exec_direct w.helper.current_sql_hstmt statement w.variables w.driver in
      some (succeeded r.0, record w { driver = r.1 })

  unfoldable pub fetch_row : M o Bool
  fetch_row w =
      let r : SqlReturn × (Variables × o.Driver) =
        o.fetch w.helper.current_sql_hstmt w.variables w.driver in
      some (succeeded r.0, record w { variables = r.1.0; driver = r.1.1 })

  -- What the four functions that bind a parameter have in common.
  unfoldable pub bind_param : CType → ℕ → Field → M o Bool
  bind_param type size param w =
      let i : ℕ = w.helper.current_bind_param in
      let r : SqlReturn × o.Driver =
        o.bind_parameter w.helper.current_sql_hstmt i type param size w.driver in
      some (
        succeeded r.0,
        record w { driver = r.1; helper = record (w.helper) { current_bind_param = next i } },
      )

  unfoldable pub bind_param_int : Field → M o Bool
  bind_param_int = bind_param sql_c_long 10

  unfoldable pub bind_param_float : Field → M o Bool
  bind_param_float = bind_param sql_c_float 15

  unfoldable pub bind_param_bool : Field → M o Bool
  bind_param_bool = bind_param sql_c_tinyint 3

  -- `text` has what is at the address: the size is `wcslen(text)`.
  unfoldable pub bind_param_text : Field → List ℕ → M o Bool
  bind_param_text param text = bind_param sql_c_wchar (length text) param

  -- A column that is not bound is only reported.
  unfoldable pub bind_result_column : CType → ℕ → Field → M o (Unit {0})
  bind_result_column type size r w =
      let j : ℕ = w.helper.current_result_col in
      let a : SqlReturn × o.Driver =
        o.bind_col w.helper.current_sql_hstmt j type r size at_local_len w.driver in
      some
        (tt, record w { driver = a.1; helper = record (w.helper) { current_result_col = next j } })

  unfoldable pub bind_result_column_int : Field → M o (Unit {0})
  bind_result_column_int = bind_result_column sql_c_long 4

  unfoldable pub bind_result_column_float : Field → M o (Unit {0})
  bind_result_column_float = bind_result_column sql_c_float 4

  unfoldable pub bind_result_column_bool : Field → M o (Unit {0})
  bind_result_column_bool = bind_result_column sql_c_tinyint 1

  unfoldable pub bind_result_column_text : Field → ℕ → M o (Unit {0})
  bind_result_column_text text count = bind_result_column sql_c_wchar (count * 2) text
