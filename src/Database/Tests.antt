-- ===== src/Database/Tests.antt =====
-- Tests and examples for Database: a database thread, its connection, and a table with two players.
use gsp.Prelude.{ℕ, ◌+◌, ◌≡◌, refl, true, false, none, some, [], ◌∷◌, arith}
use gsp.Database.State.{
  thread_db_worker, Thread, SqlConn, DbHelper, Variables, update_player_position_data, World,
  sql_success,
}
use gsp.Database.Table.{PlayerRow, Table}
use gsp.Database.Laws.{clean, View, reference}
use gsp.Database.Contexts.{load_player_data_context, sql_execute}
use gsp.Database.Releasing.{is_ready, Settled, sql_execute-Settled}
use gsp.Database.Connections.{
  Answers, Connections, initialize, connect_each, made, initialize-ready,
}

abbrev player_row : PlayerRow
player_row = record { name = 65 ∷ []; x = 7; y = 8; z = 9; valid = 1; note = none }

abbrev table : Table
table = (100, player_row) ∷ (101, record player_row { name = 66 ∷ [] }) ∷ []

abbrev db_thread : Thread
db_thread = record { thread_type = thread_db_worker; worker_thread_id = 0 }

abbrev connections : ℕ → SqlConn
connections i = record { sql_hdbc = i + 10; sql_hstmt = i + 20; using_now = false }

abbrev new_helper : DbHelper
new_helper = record { current_sql_hstmt = 0; current_result_col = 0; current_bind_param = 0 }

abbrev asked : Variables → World View
asked v = record {
  driver = ((λ h. clean), table);
  conn_pool = connections;
  helper = new_helper;
  variables = v;
}

abbrev moved : Variables
moved = record (load_player_data_context 101) { pos_x = 1; pos_y = 2; pos_z = 3 }

abbrev said : Variables
said = record (load_player_data_context 100) { comment = 72 ∷ 105 ∷ [] }

sql_execute-Settled_example :
    Settled reference
      (asked moved)
      (sql_execute reference update_player_position_data db_thread (asked moved))
      true
sql_execute-Settled_example =
    sql_execute-Settled reference update_player_position_data db_thread (asked moved)

abbrev answers : Answers
answers = record {
  env = some 1;
  attr = true;
  dbc = λ i. some (i + 10);
  connect = λ i. sql_success;
  stmt = λ i. some (i + 20);
}

abbrev nothing_yet : Connections
nothing_yet = record {
  sql_henv = 0;
  conn_pool = λ i. record { sql_hdbc = 0; sql_hstmt = 0; using_now = false };
  db_worker_thread_count = 0;
}

initialized : (initialize answers 4 nothing_yet).0 ≡ true
unfolding initialize connect_each
initialized = refl

initialize-ready_example :
    let pool = (initialize answers 4 nothing_yet).1.conn_pool in
    (pool 3 ≡ made answers 3)
    × (is_ready (record { thread_type = thread_db_worker; worker_thread_id = 3 }) pool ≡ true)
initialize-ready_example =
    initialize-ready answers 4 nothing_yet 3 initialized (omega arith) (omega arith)
