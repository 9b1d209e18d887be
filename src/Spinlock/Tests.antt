-- ===== src/Spinlock/Tests.antt =====
-- Runs of the write lock.
use gsp.Prelude.{ℕ, ◌≤◌, ◌≡◌, refl, List, [], ◌∷◌, arith}
use gsp.Spinlock.{inside, waiting, make, move, step_in, run}
use gsp.Spinlock.Exclusion.{owns, count, busy, run_excludes}

-- Both threads add at once: one gets in and the other backs off.
abbrev contended : List ℕ
contended = 0 ∷ 1 ∷ 0 ∷ 1 ∷ 0 ∷ 1 ∷ 0 ∷ 1 ∷ []

contended_test : (run contended (make 2)).threads ≡ inside ∷ waiting ∷ []
unfolding run step_in move
contended_test = refl

run_excludes_example : count owns (run contended (make 2)).threads ≤ 1
run_excludes_example = run_excludes 2 contended (omega arith)

-- The first thread goes in and out.
abbrev in_and_out : List ℕ
in_and_out = 0 ∷ 0 ∷ 0 ∷ 0 ∷ 0 ∷ []

all_out : count busy (run in_and_out (make 2)).threads ≡ 0
unfolding run step_in move
all_out = refl
