-- ===== src/Database/Contexts.antt =====
-- The contexts of Homework6/EduServer_IOCP/PlayerDBContext.h and .cpp: what each has bound when its
-- statement runs.
use gsp.Prelude.{ℕ, Bool, false, not, some, [], ◌==◌, if◌then◌else◌}
use gsp.Database.State.{
  Thread, Variables, Job, load_player_data, update_player_position_data, update_player_comment_data,
  update_player_valid_data, at_player_id, at_pos_x, at_pos_y, at_pos_z, at_is_valid, at_player_name,
  at_comment, at_result, Statement, sql_load_player, sql_update_player_position,
  sql_update_player_comment, sql_update_player_valid, Odbc, M, pure, ◌>>=◌, ◌>>◌,
}
use gsp.Database.{
  db_helper, delete_db_helper, execute, fetch_row, bind_param_int, bind_param_float,
  bind_param_bool, bind_param_text, bind_result_column_int, bind_result_column_float,
  bind_result_column_bool, bind_result_column_text,
}

abbrev pub max_name_len : ℕ
max_name_len = 32

abbrev pub max_comment_len : ℕ
max_comment_len = 256

-- The constructor of `LoadPlayerDataContext`.
abbrev pub load_player_data_context : ℕ → Variables
load_player_data_context pid = record {
  player_id = pid;
  pos_x = 0;
  pos_y = 0;
  pos_z = 0;
  is_valid = false;
  player_name = [];
  comment = [];
  result = 0;
  stray = [];
}

module _ (o : Odbc) where
  -- `if (Execute(statement)) if (FetchRow()) …`
  unfoldable pub run_statement : Statement → M o Bool
  run_statement statement = do ok ← execute o statement; if ok then fetch_row o else pure false

  abbrev pub declare_result : M o (Unit {0})
  declare_result w = some (tt, record w { variables = record (w.variables) { result = 0 } })

  -- `result != 0`, where a row is there.
  abbrev pub has_result : Bool → M o Bool
  has_result fetched w = some (if fetched then not (w.variables.result == 0) else false, w)

  -- What `OnSQLExecute` does before the statement.
  unfoldable pub load_player_binds : M o (Unit {0})
  load_player_binds = do
    _ ← bind_param_int o at_player_id
    bind_result_column_text o at_player_name max_name_len
    bind_result_column_float o at_pos_x
    bind_result_column_float o at_pos_y
    bind_result_column_float o at_pos_z
    bind_result_column_bool o at_is_valid
    bind_result_column_text o at_comment max_comment_len

  -- `LoadPlayerDataContext::OnSQLExecute`
  unfoldable pub load_player : Thread → M o Bool
  load_player t = do
    db_helper o t
    load_player_binds
    fetched ← run_statement sql_load_player
    delete_db_helper o t
    pure fetched

  -- The three updates: bind, run, and look at the number of rows.
  unfoldable pub run_update : M o (Unit {0}) → Statement → Thread → M o Bool
  run_update bind statement t = do
    db_helper o t
    declare_result
    bind
    bind_result_column_int o at_result
    fetched ← run_statement statement
    changed ← has_result fetched
    delete_db_helper o t
    pure changed

  unfoldable pub position_binds : M o (Unit {0})
  position_binds = do
    _ ← bind_param_int o at_player_id
    _ ← bind_param_float o at_pos_x
    _ ← bind_param_float o at_pos_y
    _ ← bind_param_float o at_pos_z
    pure tt

  unfoldable pub update_player_position : Thread → M o Bool
  update_player_position = run_update position_binds sql_update_player_position

  unfoldable pub comment_binds : M o (Unit {0})
  comment_binds w =
      (bind_param_int o at_player_id >>= λ _.
      bind_param_text o at_comment w.variables.comment >>= λ _. pure tt)
        w

  unfoldable pub update_player_comment : Thread → M o Bool
  update_player_comment = run_update comment_binds sql_update_player_comment

  unfoldable pub valid_binds : M o (Unit {0})
  valid_binds = do _ ← bind_param_int o at_player_id; _ ← bind_param_bool o at_is_valid; pure tt

  unfoldable pub update_player_valid : Thread → M o Bool
  update_player_valid = run_update valid_binds sql_update_player_valid

  -- `DatabaseJobContext::SQLExecute`, with the virtual call that it makes.
  abbrev pub sql_execute : Job → Thread → M o Bool
  sql_execute load_player_data = load_player
  sql_execute update_player_position_data = update_player_position
  sql_execute update_player_comment_data = update_player_comment
  sql_execute update_player_valid_data = update_player_valid
