-- ===== src/Session/Tests.antt =====
-- A session with a send buffer of eight bytes: two posts, a flush, and a partial completion.
use gsp.Prelude.{
  ℕ, ◌≡◌, refl, Bool, true, false, Option, none, some, List, [], ◌∷◌, ◌++◌, arith, In,
}
use gsp.CircularBuffer.{
  CircularBuffer, make, get_free_space_size, get_contiguious_bytes, get_buffer, get_buffer_start,
  commit, remove, remove_from_a, remove_from_b, switch_to_b,
}
use gsp.CircularBuffer.Invariant.{make-IsValid}
use gsp.CircularBuffer.Queue.{contents, store}
use gsp.Session.State.{io_send, IoContext, Player, Session, Sessions}
use gsp.Session.{
  post_send, flush_send, send_completion, new_context, add_ref, submit, count_send, do_send_job,
}
use gsp.Session.Stream.{Run, connected, posting, flushing, completing, Run-stream}
use gsp.Session.SendJob.{Ready, do_send_job_ends, do_send_job_spins}

abbrev new_buffer : CircularBuffer
new_buffer = make (λ _. 0) 8

abbrev no_player : Player
no_player = record {
  player_id = 0;
  pos_x = 0;
  pos_y = 0;
  pos_z = 0;
  is_valid = false;
  player_name = [];
  comment = [];
}

abbrev open_session : Session
open_session = record {
  recv_buffer = new_buffer;
  send_buffer = new_buffer;
  send_pending_count = 0;
  ref_count = 1;
  connected = true;
  player = no_player;
}

abbrev opened : Sessions
opened = record {
  session = λ _. open_session;
  free_sessions = [];
  return_count = 0;
  pending = [];
  requests = [];
  issue_count = 0;
  jobs = [];
  next_pid = 101;
}

abbrev state_of {ℓ} : {A : Type ℓ} → Option (A × Sessions) → Sessions
state_of none = opened
state_of (some (a, w)) = w

abbrev greeting : List ℕ
greeting = 1 ∷ 2 ∷ 3 ∷ []

abbrev posted : Sessions
posted = state_of (post_send 0 greeting opened)

abbrev flushed : Sessions
flushed = state_of (flush_send 0 true true posted)

abbrev context : IoContext
context = record { session = 0; io_type = io_send; len = 3; buf = some 0 }

abbrev partly_sent : Sessions
partly_sent = state_of (send_completion 0 2 (record flushed { pending = [] }))

at_start : Run 0 opened [] []
unfolding make
at_start = connected opened (make-IsValid (λ _. 0) 8 (omega arith)) refl refl refl refl

after_post : Run 0 posted greeting []
unfolding make post_send get_free_space_size store get_buffer commit
after_post = posting greeting true at_start refl

after_flush : Run 0 flushed greeting []
unfolding make post_send get_free_space_size store get_buffer commit flush_send new_context add_ref
    submit count_send get_contiguious_bytes get_buffer_start
after_flush = flushing true true after_post refl

after_completion : Run 0 partly_sent greeting (1 ∷ 2 ∷ [])
unfolding make post_send get_free_space_size store get_buffer commit flush_send new_context add_ref
    submit count_send get_contiguious_bytes get_buffer_start send_completion remove remove_from_a
    remove_from_b switch_to_b
after_completion = completing 0 context 2 after_flush refl refl refl (omega arith) refl

Run-stream_example : greeting ≡ (1 ∷ 2 ∷ []) ++ contents (partly_sent.session 0).send_buffer
Run-stream_example = Run-stream after_completion

abbrev always : ℕ → Bool
always _ = true

posted_requests : posted.requests ≡ 0 ∷ []
unfolding make post_send get_free_space_size
posted_requests = refl

posted-Ready : (t : ℕ) → In t (0 ∷ []) → Ready (posted.session t)
unfolding make post_send get_free_space_size
posted-Ready t i on = ground (arith, i)

do_send_job_ends_example :
    (w' : Sessions) × (do_send_job always always 2 posted ≡ some (tt, w')) × (w'.requests ≡ [])
do_send_job_ends_example =
    do_send_job_ends always always 2 (0 ∷ []) posted posted_requests (omega arith) ((λ i. i), tt)
      posted-Ready

-- Another post while the first send is pending.
abbrev again : Sessions
again = record flushed { requests = 0 ∷ [] }

again_pending : (again.session 0).send_pending_count ≡ 1
unfolding make post_send get_free_space_size store get_buffer commit flush_send new_context add_ref
    submit count_send get_contiguious_bytes get_buffer_start
again_pending = refl

again_connected : (again.session 0).connected ≡ true
unfolding make post_send get_free_space_size store get_buffer commit flush_send new_context add_ref
    submit count_send get_contiguious_bytes get_buffer_start
again_connected = refl

do_send_job_spins_example : do_send_job always always 100 again ≡ none
do_send_job_spins_example =
    do_send_job_spins always always 100 0 [] again refl again_connected
      (omega (arith, again_pending)) (omega (arith, again_pending))
