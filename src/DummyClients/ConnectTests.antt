-- ===== src/DummyClients/ConnectTests.antt =====
-- A manager of two sessions, one of which cannot connect, and the first round of the other.
use gsp.Prelude.{
  ℕ, ◌≤◌, ◌<◌, ◌≡◌, refl, true, false, ◌==◌, none, some, List, [], ◌∷◌, arith, length,
}
use gsp.CircularBuffer.Memory.{window}
use gsp.DummyClients.State.{
  io_send, io_recv_zero, io_connect, thread_main, IoContext, Clients, pure, ◌>>=◌,
}
use gsp.DummyClients.{new_session}
use gsp.DummyClients.Packets.{Messages}
use gsp.DummyClients.Connect.{prepare_client_sessions, connect_sessions}
use gsp.DummyClients.Worker.{Completion, Answers, run_round}
use gsp.DummyClients.Connecting.{with_gained}
use gsp.DummyClients.Preparing.{prepare-connect}
use gsp.DummyClients.Login.{fresh}
use gsp.DummyClients.Greeting.{run_round-greets}

abbrev manager : Clients
manager = record {
  session = λ _. fresh (λ _. 0) (λ _. 0);
  ready_sessions = [];
  current_connect_count = 0;
  current_return_count = 0;
  total_session_send = 0;
  total_session_recv = 0;
  pending = [];
  requests = [];
}

abbrev pub connect_of : ℕ → IoContext
connect_of s = record { session = s; io_type = io_connect; len = 0; buf = none }

prepare-connect_example :
    (w' : Clients) × ((prepare_client_sessions thread_main 2
            (λ _. ((λ _. 0), (λ _. 0)))
            (λ _. (true, true))
          >>= λ _. connect_sessions (λ s. s == 0))
        manager
      ≡ some (true, w'))
    × ((t : ℕ) → t < 2 → w'.session t ≡ with_gained (t == 0) (new_session (λ _. 0) (λ _. 0)))
    × ((t : ℕ) → 2 ≤ t → w'.session t ≡ manager.session t)
    × (w'.pending ≡ connect_of 0 ∷ [])
prepare-connect_example =
    prepare-connect 2 (λ _. ((λ _. 0), (λ _. 0))) (λ _. (true, true)) (λ s. s == 0) manager refl
      (λ t lt. refl)

abbrev pub plain : Messages
plain = record { Message = List ℕ; byte_size = λ m. length m; serialize = λ m. m }

abbrev pub login_message : List ℕ
login_message = 8 ∷ 121 ∷ []

abbrev pub good : Answers
good = record {
  setup = record { context_updated = true; no_delay_set = true; receive_buffer_set = true };
  recv_started = true;
  disconnect_started = true;
}

abbrev pub completed : Completion
completed = record { ok = true; transferred = 0; stop_now = false; timed_out = false }

abbrev sending : IoContext
sending = record { session = 0; io_type = io_send; len = 6; buf = some 0 }

abbrev receiving : IoContext
receiving = record { session = 0; io_type = io_recv_zero; len = 0; buf = none }

run_round-greets_example :
    (w' : Clients) × (run_round plain login_message
        (λ _. pure tt)
        (some (connect_of 0))
        completed
        good
        (λ _. true)
        (λ _. true)
        2
        manager
      ≡ some (true, w'))
    × ((w'.session 0).connected ≡ true)
    × ((w'.session 0).ref_count ≡ 3)
    × (w'.requests ≡ [])
    × (w'.pending ≡ sending ∷ receiving ∷ [])
    × (window (w'.session 0).send_buffer.bytes 0 6 ≡ 2 ∷ 0 ∷ 1 ∷ 0 ∷ 8 ∷ 121 ∷ [])
    × (w'.current_connect_count ≡ 1)
run_round-greets_example =
    run_round-greets plain (λ m. refl) login_message (omega arith, omega arith, omega arith)
      (λ _. 0) (λ _. 0) 0 (λ _. pure tt) completed good (λ _. true) 0 manager refl refl refl refl
      refl
