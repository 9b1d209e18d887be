-- ===== src/Server/Tests.antt =====
-- A short run: AcceptEx starts for one session and fails for the next, and then the kernel
-- completes the accept.
use gsp.Prelude.{
  arith, ℕ, suc, ◌+◌, ◌≤◌, ◌≡◌, refl, inl, Bool, true, false, Option, none, some, [], ltb, In,
  Distinct, get_elem?, length,
}
use gsp.CircularBuffer.Memory.{Bytes}
use gsp.Server.State.{
  io_accept, io_recv, io_recv_zero, thread_main, thread_io_worker, IoContext, Server,
  max_connection, Calls,
}
use gsp.CircularBuffer.{make, get_free_space_size, get_buffer}
use gsp.Server.{
  accept_completion, pre_recv, post_recv, new_session, add_ref, release_ref, post, post_accept,
  new_context, submit, delete_io_context,
}
use gsp.Server.Counting.{total, holds, keeps, cycles}
use gsp.Server.Invariant.{linked}
use gsp.Server.Worker.{
  Completion, accept_sessions, work, received, handle, dispatch, finish, pre_receive_completion,
  dequeue, issue_session, pop_session,
}
use gsp.Server.Accepting.{prepared, prepare_sessions, pushed_sessions}
use gsp.Server.Issuing.{sessions_out}
use gsp.Server.Leaks.{Lost, failed_accept-Lost, failed_disconnect-Lost}
use gsp.Server.Runs.{
  working, Reachable, preparing, accepting, working-Reachable, accepting-Reachable, free-Reachable,
  refs-Reachable, pool-Reachable,
}

abbrev no_bytes : ℕ → Bytes
no_bytes _ _ = 0

at_start : Reachable (prepared no_bytes)
unfolding prepare_sessions
at_start = preparing no_bytes refl

-- The first call of AcceptEx starts an operation and the second fails.
abbrev once : ℕ → Bool
once f = ltb 9999 f

abbrev state_of {ℓ} : {A : Type ℓ} → Option (A × Server) → Server
state_of none = prepared no_bytes
state_of (some (a, w)) = w

abbrev accepted : Server
accepted = state_of (accept_sessions thread_main once (suc max_connection) (prepared no_bytes))

accepted-Reachable : Reachable accepted
unfolding new_session accept_sessions issue_session pop_session add_ref post_accept post new_context
    submit delete_io_context release_ref pushed_sessions
accepted-Reachable = accepting once false at_start refl

abbrev accept_context : IoContext
accept_context = record { session = 9999; io_type = io_accept; len = 0; buf = none }

accept_pending : get_elem? accepted.pending 0 ≡ some accept_context
unfolding new_session accept_sessions issue_session pop_session add_ref post_accept post new_context
    submit delete_io_context release_ref pushed_sessions
accept_pending = refl

abbrev all_well : Calls
all_well = record {
  update_accept_context = true;
  tcp_nodelay = true;
  rcvbuf = true;
  getpeername = true;
  completion_port = true;
  recv_started = true;
  send_started = true;
  disconnect_started = true;
}

abbrev completed : Completion
completed = record { ok = true; transferred = 0; timed_out = false }

working-Reachable_example :
    (w' : Server) × (work thread_io_worker accept_context completed all_well
        (dequeue 0 [] accept_context accepted)
      ≡ some (tt, w'))
    × Reachable w'
working-Reachable_example =
    working-Reachable 0 [] accept_context completed all_well accepted-Reachable accept_pending refl

accepting-Reachable_example :
    (b : Bool) × (w' : Server) × (accept_sessions thread_main once (suc max_connection) accepted
      ≡ some (b, w'))
    × Reachable w'
    × (b ≡ true → sessions_out w' ≡ max_connection)
accepting-Reachable_example = accepting-Reachable once accepted-Reachable

still_free : In 9997 accepted.free_sessions
unfolding new_session accept_sessions issue_session pop_session add_ref post_accept post new_context
    submit delete_io_context release_ref pushed_sessions
still_free = inl refl

free-Reachable_example :
    ((accepted.session 9997).ref_count ≡ 0)
    × ((accepted.session 9997).connected ≡ false)
    × (total holds 9997 accepted.pending ≡ 0)
free-Reachable_example = free-Reachable 9997 accepted-Reachable still_free

refs-Reachable_example :
    (total holds 9999 accepted.pending ≤ (accepted.session 9999).ref_count)
    × ((accepted.session 9999).ref_count ≤ total holds 9999 accepted.pending + 1)
    × (total cycles 9999 accepted.pending ≤ 1)
    × (linked (accepted.session 9999) + total keeps 9999 accepted.pending ≤ 1)
refs-Reachable_example = refs-Reachable 9999 accepted-Reachable

pool-Reachable_example :
    Distinct accepted.free_sessions
    × (length accepted.free_sessions + sessions_out accepted ≡ max_connection)
pool-Reachable_example = pool-Reachable accepted-Reachable

failed_accept-Lost_example :
    (s : ℕ) × (w' : Server) × (accept_sessions thread_main (λ _. false) 3 (prepared no_bytes)
      ≡ some (false, w'))
    × In s (pushed_sessions max_connection)
    × Lost w' s
failed_accept-Lost_example = failed_accept-Lost 2 at_start (omega arith)

-- The accept completes, and then the zero byte receive; a receive is pending.
abbrev joined : Server
joined =
    state_of (
      work thread_io_worker accept_context completed all_well
        (dequeue 0 [] accept_context accepted))

abbrev zero_context : IoContext
zero_context = record { session = 9999; io_type = io_recv_zero; len = 0; buf = none }

abbrev receiving : Server
receiving =
    state_of
      (work thread_io_worker zero_context completed all_well (dequeue 0 [] zero_context joined))

abbrev recv_context : IoContext
recv_context = record { session = 9999; io_type = io_recv; len = 65536; buf = some 0 }

joined-Reachable : Reachable joined
unfolding new_session accept_sessions issue_session pop_session add_ref post_accept post new_context
    submit delete_io_context release_ref pushed_sessions dequeue received work handle dispatch
    finish accept_completion pre_recv post_recv pre_receive_completion make get_free_space_size
    get_buffer
joined-Reachable = working 0 [] accept_context completed all_well accepted-Reachable refl refl refl

receiving-Reachable : Reachable receiving
unfolding new_session accept_sessions issue_session pop_session add_ref post_accept post new_context
    submit delete_io_context release_ref pushed_sessions dequeue received work handle dispatch
    finish accept_completion pre_recv post_recv pre_receive_completion make get_free_space_size
    get_buffer
receiving-Reachable = working 0 [] zero_context completed all_well joined-Reachable refl refl refl

recv_pending : get_elem? receiving.pending 0 ≡ some recv_context
unfolding new_session accept_sessions issue_session pop_session add_ref post_accept post new_context
    submit delete_io_context release_ref pushed_sessions dequeue received work handle dispatch
    finish accept_completion pre_recv post_recv pre_receive_completion make get_free_space_size
    get_buffer
recv_pending = refl

recv_connected : (receiving.session 9999).connected ≡ true
unfolding new_session accept_sessions issue_session pop_session add_ref post_accept post new_context
    submit delete_io_context release_ref pushed_sessions dequeue received work handle dispatch
    finish accept_completion pre_recv post_recv pre_receive_completion make get_free_space_size
    get_buffer
recv_connected = refl

abbrev failed : Completion
failed = record { ok = false; transferred = 0; timed_out = false }

abbrev no_disconnect : Calls
no_disconnect = record all_well { disconnect_started = false }

failed_disconnect-Lost_example :
    (w' : Server) × (work thread_io_worker recv_context failed no_disconnect
        (dequeue 0 [] recv_context receiving)
      ≡ some (tt, w'))
    × Lost w' 9999
failed_disconnect-Lost_example =
    failed_disconnect-Lost 0 [] recv_context failed no_disconnect receiving-Reachable recv_pending
      refl refl refl recv_connected refl

-- The last error is left from a wait that timed out.
abbrev late : Completion
late = record { ok = true; transferred = 0; timed_out = true }
