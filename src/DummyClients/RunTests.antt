-- ===== src/DummyClients/RunTests.antt =====
-- A run of one dummy client: it connects, and a worker gets its completed connect.
use gsp.Prelude.{◌+◌, ◌≤◌, ◌≡◌, refl, Bool, true, none, some, [], ◌∷◌, arith}
use gsp.DummyClients.State.{Clients, thread_main, M, ◌>>=◌}
use gsp.DummyClients.{new_session, add_ref, new_context, submit, release_ref, delete_io_context}
use gsp.DummyClients.Connect.{
  prepare_from, prepare_client_sessions, connect_sessions, connect_each, connect_request,
}
use gsp.DummyClients.Counting.{total, holds, keeps, cycles, sends}
use gsp.DummyClients.References.{linked}
use gsp.DummyClients.Completing.{dequeue}
use gsp.DummyClients.Starting.{no_clients}
use gsp.DummyClients.Tests.{counted-IsLawful}
use gsp.DummyClients.ConnectTests.{plain, login_message, good, completed, connect_of}
use gsp.DummyClients.Runs.{Reachable, Fits, connecting, job, round-Reachable, counts-Reachable}

abbrev first : Clients
first = no_clients (λ _. ((λ _. 0), (λ _. 0)))

abbrev first_calls : M Bool
first_calls =
    prepare_client_sessions thread_main 1 (λ _. ((λ _. 0), (λ _. 0))) (λ _. (true, true)) >>= λ _.
    connect_sessions (λ _. true)

abbrev started : Clients
started = elim (first_calls first) [ none ↦ first | some (_, w) ↦ w ]

has_started : first_calls first ≡ some (true, started)
unfolding new_session prepare_from prepare_client_sessions connect_sessions connect_each
    connect_request add_ref new_context submit release_ref delete_io_context
has_started = refl

posted_one : started.pending ≡ connect_of 0 ∷ []
unfolding new_session prepare_from prepare_client_sessions connect_sessions connect_each
    connect_request add_ref new_context submit release_ref delete_io_context
posted_one = refl

started-Reachable : Reachable counted-IsLawful (λ _ _. true) plain started
started-Reachable =
    connecting 1 (λ _. ((λ _. 0), (λ _. 0))) (λ _. (true, true)) (λ _. true) (λ t lt. refl)
      has_started

-- No bytes are received.
connect-Fits : Fits (connect_of 0) completed (dequeue 0 [] (connect_of 0) started)
connect-Fits e = absurd (ground (arith, e))

round-Reachable_example :
    (w' : Clients) × (job counted-IsLawful
        (λ _ _. true)
        plain
        login_message
        true
        (connect_of 0)
        completed
        good
        (dequeue 0 [] (connect_of 0) started)
      ≡ some (true, w'))
    × Reachable counted-IsLawful (λ _ _. true) plain w'
round-Reachable_example =
    round-Reachable counted-IsLawful (λ _ _. true) plain 0 [] login_message true (connect_of 0)
      completed good started-Reachable (ground (arith, posted_one)) refl refl connect-Fits

counts-Reachable_example :
    (total holds 0 started.pending ≤ (started.session 0).ref_count)
    × ((started.session 0).ref_count ≤ total holds 0 started.pending + 1)
    × (total cycles 0 started.pending ≤ 1)
    × (total sends 0 started.pending ≤ (started.session 0).send_pending_count)
    × ((started.session 0).send_pending_count ≤ 1)
    × (linked (started.session 0) + total keeps 0 started.pending ≤ 1)
counts-Reachable_example = counts-Reachable counted-IsLawful (λ _ _. true) plain 0 started-Reachable
