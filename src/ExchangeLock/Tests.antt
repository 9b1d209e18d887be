-- ===== src/ExchangeLock/Tests.antt =====
-- Two threads of which one waits until the other has left.
use gsp.Prelude.{ℕ, ◌≤◌, ◌≡◌, refl, some, List, [], ◌∷◌, get_elem?}
use gsp.ExchangeLock.{outside, entering, sleeping, inside, make, move, step_in, run}
use gsp.ExchangeLock.Progress.{owners, owners-run-make}

abbrev contended : List ℕ
contended = 0 ∷ 1 ∷ 0 ∷ 1 ∷ []

one_sleeps : (run contended (make 2)).threads ≡ inside ∷ sleeping 0 ∷ []
unfolding run step_in move
one_sleeps = refl

abbrev left : List ℕ
left = 0 ∷ 1 ∷ 0 ∷ 1 ∷ 0 ∷ 1 ∷ []

one_left : (run left (make 2)).threads ≡ outside ∷ entering 1 ∷ []
unfolding run step_in move
one_left = refl

owners-run-make_example :
    (owners (run left (make 2)).threads ≡ (run left (make 2)).lock_flag)
    × (owners (run left (make 2)).threads ≤ 1)
    × ((i nloops : ℕ)
        → get_elem? (run left (make 2)).threads i ≡ some (entering nloops)
        → owners (run left (make 2)).threads ≡ 0
        → get_elem? (step_in (run left (make 2)).threads i (run left (make 2)).lock_flag).threads i
          ≡ some inside)
owners-run-make_example = owners-run-make 2 left
