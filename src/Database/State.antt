-- ===== src/Database/State.antt =====
-- The data of Homework6/EduServer_IOCP/DBHelper.h, SQLStatement.h and PlayerDBContext.h, and ODBC,
-- the interface of Windows to a database, whose calls are a parameter.
use gsp.Prelude.{Effect, ℕ, Bool, List}
pub use gsp.Prelude.{pure, ◌>>=◌, ◌>>◌, crash_assert, update}

pub data ThreadType : Type 0 where
  thread_main thread_io_worker thread_db_worker : ThreadType

-- `LThreadType` and `LWorkerThreadId`
pub record Thread : Type 0 where
  pub thread_type : ThreadType
  pub worker_thread_id : ℕ

-- A handle is a number, and 0 is `nullptr`.
pub record SqlConn : Type 0 where
  pub sql_hdbc : ℕ
  pub sql_hstmt : ℕ
  pub using_now : Bool

-- The two indices are of 16 bits.
pub record DbHelper : Type 0 where
  pub current_sql_hstmt : ℕ
  pub current_result_col : ℕ
  pub current_bind_param : ℕ

-- The members of the four contexts of PlayerDBContext.h, each of which has some of them, and the
-- local `result` of their `OnSQLExecute`. An `int` or a `float` is its bit pattern; a text is the
-- characters before the first 0 of its array. `stray` has what SQLFetch writes through the address
-- of a local `len` whose function has returned, the last first: it goes to a place of the stack
-- that is not theirs any more, which is taken to be none of the members here.
pub record Variables : Type 0 where
  pub player_id : ℕ
  pub pos_x : ℕ
  pub pos_y : ℕ
  pub pos_z : ℕ
  pub is_valid : Bool
  pub player_name : List ℕ
  pub comment : List ℕ
  pub result : ℕ
  pub stray : List ℕ

-- The four classes of contexts.
pub data Job : Type 0 where
  load_player_data update_player_position_data update_player_comment_data : Job
  update_player_valid_data : Job

-- The address of a variable.
pub data Field : Type 0 where
  at_player_id at_pos_x at_pos_y at_pos_z at_is_valid at_player_name at_comment at_result : Field

-- The address of a column's length: that of the local `len` of the function that binds the column.
pub data Indicator : Type 0 where
  at_local_len : Indicator

pub data CType : Type 0 where
  sql_c_long sql_c_float sql_c_tinyint sql_c_wchar : CType

pub data Statement : Type 0 where
  sql_load_player sql_update_player_position sql_update_player_comment : Statement
  sql_update_player_valid : Statement

pub data SqlReturn : Type 0 where
  sql_success sql_success_with_info sql_no_data sql_error : SqlReturn

pub data FreeOption : Type 0 where
  sql_unbind sql_reset_params sql_close : FreeOption

-- The calls of ODBC that a `DBHelper` makes, each with a statement handle first. A parameter or a
-- column has its number, its C type, the address of its variable and its size, and a column the
-- address of its length; `exec_direct` reads the variables that are bound, and `fetch` writes them
-- with their lengths.
pub record Odbc : Type 1 where
  pub Driver : Type 0
  pub bind_parameter : ℕ → ℕ → CType → Field → ℕ → Driver → SqlReturn × Driver
  pub bind_col : ℕ → ℕ → CType → Field → ℕ → Indicator → Driver → SqlReturn × Driver
  pub exec_direct : ℕ → Statement → Variables → Driver → SqlReturn × Driver
  pub fetch : ℕ → Variables → Driver → SqlReturn × (Variables × Driver)
  pub free_stmt : ℕ → FreeOption → Driver → Driver

-- `conn_pool` is `mSqlConnPool`; `helper` is the `DBHelper` of the `OnSQLExecute` that runs.
pub record World (D : Type 0) : Type 0 where
  pub driver : D
  pub conn_pool : ℕ → SqlConn
  pub helper : DbHelper
  pub variables : Variables

abbrev pub M : Odbc → Type 0 → Type 0
M o = Effect (World o.Driver)
