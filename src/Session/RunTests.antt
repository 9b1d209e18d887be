-- ===== src/Session/RunTests.antt =====
-- Examples for the whole server: a session is issued, a client is accepted, and the session is
-- held.
use gsp.Prelude.{ℕ, ◌+◌, ◌≤◌, ◌≡◌, refl, true, false, none, some, [], arith, In}
use gsp.CircularBuffer.Memory.{Bytes}
use gsp.Database.State.{thread_main}
use gsp.Session.State.{io_accept, IoContext, Player, Session, Sessions}
use gsp.Session.{add_ref, release_ref, new_context, delete_io_context, submit, pre_recv}
use gsp.Session.Requests.{request_load, new_database_job}
use gsp.Session.Accepting.{
  prepare_client_sessions, pushed_sessions, pop_session, issue_session, post_accept, new_session,
  accept_completion,
}
use gsp.Session.IoThread.{Completion, Answers, dispatch, handle, do_iocp_job}
use gsp.Session.Counting.{total, holds, cycles, sends, jobs_of}
use gsp.Session.Completing.{dequeue}
use gsp.Session.Issuing.{prepared}
use gsp.Session.Runs.{
  complete, Step, Reachable, Later, complete-Reachable, refs_jobs-Reachable, held-Later,
}

abbrev nobody : Player
nobody = record {
  player_id = 0;
  pos_x = 0;
  pos_y = 0;
  pos_z = 0;
  is_valid = false;
  player_name = [];
  comment = [];
}

abbrev storage : ℕ → Bytes × Bytes
storage s = ((λ _. 0), (λ _. 0))

abbrev ready : Sessions
ready = prepared storage nobody

ready-Reachable : Reachable ready
unfolding prepare_client_sessions
ready-Reachable = Reachable.preparing storage nobody refl

abbrev accepting : IoContext
accepting = record { session = 9999; io_type = io_accept; len = 0; buf = none }

abbrev out_session : Session
out_session = record (new_session (λ _. 0) (λ _. 0) nobody) { ref_count = 2 }

abbrev issued_server : Sessions
issued_server = elim (issue_session thread_main true ready) [ none ↦ ready | some (b, w) ↦ w ]

issue_runs : issue_session thread_main true ready ≡ some (true, issued_server)
unfolding issue_session pop_session pushed_sessions post_accept new_context add_ref submit
    new_session
issue_runs = refl

issued-Reachable : Reachable issued_server
issued-Reachable = Reachable.stepping ready-Reachable (Step.issuing true true issue_runs)

abbrev came : Completion
came = record { ok = true; transferred = 0; timed_out = false }

abbrev fine : Answers
fine = record {
  setup = record {
    update_accept_context = true;
    tcp_no_delay = true;
    recv_buffer_size = true;
    peer_name = true;
    registered = true;
  };
  recv_started = true;
  disconnect_started = true;
}

abbrev served : Sessions
served = elim (complete 0 [] accepting came fine issued_server) [ none ↦ ready | some (a, w) ↦ w ]

accept_runs : complete 0 [] accepting came fine issued_server ≡ some (tt, served)
unfolding issue_session pop_session pushed_sessions post_accept new_context add_ref submit
    new_session do_iocp_job handle dispatch accept_completion pre_recv request_load new_database_job
    delete_io_context release_ref dequeue
accept_runs = refl

accepting-Step : Step issued_server served
unfolding issue_session pop_session pushed_sessions post_accept new_context add_ref submit
    new_session
accepting-Step = Step.working 0 [] accepting came fine refl (omega arith) accept_runs

complete-Reachable_example :
    (w : Sessions) × (complete 0 [] accepting came fine issued_server ≡ some (tt, w)) × Reachable w
unfolding issue_session pop_session pushed_sessions post_accept new_context add_ref submit
    new_session
complete-Reachable_example =
    complete-Reachable 0 [] accepting came fine issued-Reachable refl (omega arith)

refs_jobs-Reachable_example :
    (total holds 9999 issued_server.pending + jobs_of 9999 issued_server.jobs
      ≤ (issued_server.session 9999).ref_count)
    × ((issued_server.session 9999).ref_count
        ≤ total holds 9999 issued_server.pending + jobs_of 9999 issued_server.jobs + 1)
    × (total cycles 9999 issued_server.pending ≤ 1)
    × (total sends 9999 issued_server.pending ≤ (issued_server.session 9999).send_pending_count)
    × ((issued_server.session 9999).send_pending_count ≤ 1)
refs_jobs-Reachable_example = refs_jobs-Reachable 9999 issued-Reachable

some_job : 1 ≤ jobs_of 9999 served.jobs
unfolding issue_session pop_session pushed_sessions post_accept new_context add_ref submit
    new_session do_iocp_job handle dispatch accept_completion pre_recv request_load new_database_job
    delete_io_context release_ref dequeue jobs_of
some_job = omega arith

held-Later_example : (1 ≤ (served.session 9999).ref_count) × (¬ In 9999 served.free_sessions)
held-Later_example =
    held-Later 9999 (Reachable.stepping issued-Reachable accepting-Step) Later.here some_job
