-- ===== src/Session/ServerTests.antt =====
-- Examples for the I/O thread and the database jobs of a session: a client that is accepted, and a
-- comment that is saved.
use gsp.Prelude.{◌≡◌, refl, true, false, Option, none, some, [], ◌∷◌}
use gsp.CircularBuffer.{make}
use gsp.Database.State.{thread_io_worker, thread_db_worker, Thread, World}
use gsp.Database.Table.{PlayerRow}
use gsp.Database.Laws.{clean, View}
use gsp.Database.Contexts.{load_player_data_context}
use gsp.Session.State.{io_accept, IoContext, Player, Session, Sessions}
use gsp.Session.{
  add_ref, release_ref, new_context, delete_io_context, submit, pre_recv, do_send_job,
}
use gsp.Session.Requests.{request_load, new_database_job}
use gsp.Session.Accepting.{accept_completion}
use gsp.Session.IoThread.{Completion, Answers, dispatch, handle, do_iocp_job, run_round}
use gsp.Session.Growing.{load_job, run_round-jobs}

abbrev no_one : Player
no_one = record {
  player_id = 0;
  pos_x = 0;
  pos_y = 0;
  pos_z = 0;
  is_valid = false;
  player_name = [];
  comment = [];
}

-- Issued, with its accept.
abbrev issued_session : Session
issued_session = record {
  recv_buffer = make (λ _. 0) 8;
  send_buffer = make (λ _. 0) 8;
  send_pending_count = 0;
  ref_count = 2;
  connected = false;
  player = no_one;
}

abbrev waiting : Sessions
waiting = record {
  session = λ _. issued_session;
  free_sessions = [];
  issue_count = 1;
  return_count = 0;
  pending = [];
  requests = [];
  jobs = [];
  next_pid = 101;
}

abbrev accept_context : IoContext
accept_context = record { session = 0; io_type = io_accept; len = 0; buf = none }

abbrev accepted : Completion
accepted = record { ok = true; transferred = 0; timed_out = false }

abbrev well : Answers
well = record {
  setup = record {
    update_accept_context = true;
    tcp_no_delay = true;
    recv_buffer_size = true;
    peer_name = true;
    registered = true;
  };
  recv_started = true;
  disconnect_started = true;
}

abbrev round : Option (Unit {0} × Sessions)
round =
    run_round thread_io_worker (some accept_context) accepted well (λ _. true) (λ _. true) 1 waiting

abbrev state_after : Option (Unit {0} × Sessions) → Sessions
state_after none = waiting
state_after (some (a, w)) = w

round_runs : round ≡ some (tt, state_after round)
unfolding run_round do_iocp_job handle dispatch accept_completion pre_recv new_context add_ref
    submit request_load new_database_job delete_io_context release_ref do_send_job
round_runs = refl

run_round-jobs_example : (state_after round).jobs ≡ load_job 0 101 ∷ []
run_round-jobs_example =
    run_round-jobs thread_io_worker (some accept_context) accepted well (λ _. true) (λ _. true) 1
      waiting (state_after round) round_runs

abbrev kim : PlayerRow
kim = record { name = 75 ∷ []; x = 7; y = 8; z = 9; valid = 1; note = none }

abbrev db_thread : Thread
db_thread = record { thread_type = thread_db_worker; worker_thread_id = 2 }

abbrev hello : World View
hello = record {
  driver = ((λ h. clean), (100, kim) ∷ []);
  conn_pool = λ i. record { sql_hdbc = 1; sql_hstmt = 2; using_now = false };
  helper = record { current_sql_hstmt = 0; current_result_col = 0; current_bind_param = 0 };
  variables = record (load_player_data_context 100) { comment = 72 ∷ 105 ∷ [] };
}
