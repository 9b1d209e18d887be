-- ===== src/ExchangeLock/Progress.antt =====
-- The lock in any order of the steps of its threads.
use gsp.Prelude.{ℕ, zero, suc, ◌+◌, ◌≤◌, ◌≡◌, refl, subst, some, List, [], ◌∷◌, arith, get_elem?}
use gsp.ExchangeLock.{
  Place, outside, entering, sleeping, inside, move, ExchangeLock, make, step_in, run,
}

-- How many of the threads are inside.
abbrev pub owners : List Place → ℕ
owners [] = 0
owners (inside ∷ ps) = suc (owners ps)
owners (outside ∷ ps) = owners ps
owners (entering n ∷ ps) = owners ps
owners (sleeping n ∷ ps) = owners ps

-- `before` are the owners among the threads before these.
owners-step_in :
    (ps : List Place) (i f before : ℕ)
    → before + owners ps ≡ f
    → f ≤ 1
    → let l = step_in ps i f in (before + owners l.threads ≡ l.lock_flag) × (l.lock_flag ≤ 1)
unfolding step_in move
owners-step_in [] i f before e le = (e, le)
owners-step_in (outside ∷ ps) zero f before e le = (e, le)
owners-step_in (entering n ∷ ps) zero f before e le = ground arith
owners-step_in (sleeping n ∷ ps) zero f before e le = (e, le)
owners-step_in (inside ∷ ps) zero f before e le = (omega arith, omega arith)
owners-step_in (outside ∷ ps) (suc i) f before e le = owners-step_in ps i f before e le
owners-step_in (entering n ∷ ps) (suc i) f before e le = owners-step_in ps i f before e le
owners-step_in (sleeping n ∷ ps) (suc i) f before e le = owners-step_in ps i f before e le
owners-step_in (inside ∷ ps) (suc i) f before e le =
    let (same, le') = owners-step_in ps i f (before + 1) (omega arith) le in
    (omega (arith, same), le')

owners-run :
    (is : List ℕ) (l : ExchangeLock)
    → owners l.threads ≡ l.lock_flag
    → l.lock_flag ≤ 1
    → let l' = run is l in (owners l'.threads ≡ l'.lock_flag) × (l'.lock_flag ≤ 1)
unfolding run
owners-run [] l e le = (e, le)
owners-run (i ∷ is) l e le =
    let (e', le') = owners-step_in l.threads i l.lock_flag 0 (omega (arith, e)) le in
    owners-run is (step_in l.threads i l.lock_flag) (omega (arith, e')) le'

owners-make : (n : ℕ) → owners (make n).threads ≡ 0
owners-make zero = refl
owners-make (suc n) = owners-make n

gets_in :
    (ps : List Place) (i n : ℕ)
    → get_elem? ps i ≡ some (entering n)
    → get_elem? (step_in ps i 0).threads i ≡ some inside
unfolding step_in move
gets_in [] i n e = absurd (ground (arith, e))
gets_in (p ∷ ps) zero n e = ground (arith, e)
gets_in (p ∷ ps) (suc i) n e = gets_in ps i n e

-- For any number of threads and any order of their steps: the flag is the number of the threads
-- that are inside, that is at most one, and when it is none, a thread that makes its exchange gets
-- in.
pub owners-run-make :
    (n : ℕ) (is : List ℕ)
    → let l = run is (make n) in
      (owners l.threads ≡ l.lock_flag)
      × (owners l.threads ≤ 1)
      × ((i nloops : ℕ)
          → get_elem? l.threads i ≡ some (entering nloops)
          → owners l.threads ≡ 0
          → get_elem? (step_in l.threads i l.lock_flag).threads i ≡ some inside)
owners-run-make n is =
    let l : ExchangeLock = run is (make n) in
    let (e, le) = owners-run is (make n) (owners-make n) (omega arith) in
    (
      e,
      omega (arith, e, le),
      λ i nloops at free.
          subst (λ f. get_elem? (step_in l.threads i f).threads i ≡ some inside) {x = 0}
            {y = l.lock_flag} (omega (arith, e, free)) (gets_in l.threads i nloops at),
    )
