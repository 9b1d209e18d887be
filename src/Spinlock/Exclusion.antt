-- ===== src/Spinlock/Exclusion.antt =====
-- The write lock excludes: whatever the order of the threads' steps, at most one is inside.
use gsp.Prelude.{ℕ, zero, suc, ◌+◌, ◌*◌, ◌^◌, ◌≤◌, ◌<◌, ◌≡◌, refl, List, [], ◌∷◌, arith, length}
use gsp.Spinlock.{
  write_flag, Place, outside, waiting, adding, backing_off, draining, inside, move, Spinlock, make,
  step_in, run,
}

-- 1 for a thread whose add is in the flag.
abbrev added : Place → ℕ
added backing_off = 1
added draining = 1
added inside = 1
added _ = 0

-- 1 for a thread that has the lock.
abbrev pub owns : Place → ℕ
owns draining = 1
owns inside = 1
owns _ = 0

abbrev pub count : (Place → ℕ) → List Place → ℕ
count f [] = 0
count f (p ∷ ps) = f p + count f ps

-- The flag counts the adds, and an owner is one of them, alone.
abbrev Right : ℕ → ℕ → ℕ → Type 0
Right f adds owners = (f ≡ adds * write_flag) × (owners ≤ 1) × (owners ≤ adds)

move-Right :
    (p : Place) (f others owners : ℕ)
    → Right f (added p + others) (owns p + owners)
    → owners ≤ others
    → added p + others < 2 ^ 11
    → others + 1 < 2 ^ 11
    → let m = move p f in Right m.lock_flag (added m.place + others) (owns m.place + owners)
unfolding move
move-Right outside f others owners r le few more = ground arith
move-Right waiting f others owners r le few more = ground arith
move-Right adding f others owners r le few more = ground arith
move-Right backing_off f others owners r le few more = ground arith
move-Right draining f others owners r le few more = ground arith
move-Right inside f others owners r le few more = ground arith

counts : (ps : List Place) → (count owns ps ≤ count added ps) × (count added ps ≤ length ps)
counts [] = (omega arith, omega arith)
counts (p ∷ ps) = ground (arith, counts ps)

-- `adds` and `owners` are those of the threads before these.
step-Right :
    (ps : List Place) (i f adds owners : ℕ)
    → owners ≤ adds
    → adds + length ps < 2 ^ 11
    → Right f (adds + count added ps) (owners + count owns ps)
    → let l = step_in ps i f in
      Right l.lock_flag (adds + count added l.threads) (owners + count owns l.threads)
      × (length l.threads ≡ length ps)
unfolding step_in
step-Right [] i f adds owners le few r = (r, refl)
step-Right (p ∷ ps) zero f adds owners le few r =
    let (fewer, short) = counts ps in
    let r' : Right (move p f).lock_flag (added (move p f).place + (adds + count added ps))
        (owns (move p f).place + (owners + count owns ps)) =
      move-Right p f (adds + count added ps) (owners + count owns ps) (omega (arith, r))
        (omega arith) (ground arith) (omega arith) in
    (omega (arith, r'), refl)
step-Right (p ∷ ps) (suc i) f adds owners le few r =
    let (r', same) =
      step-Right ps i f (adds + added p) (owners + owns p) (ground arith) (ground arith)
        (omega (arith, r)) in
    (omega (arith, r'), omega (arith, same))

run-Right :
    (is : List ℕ) (l : Spinlock)
    → length l.threads < 2 ^ 11
    → Right l.lock_flag (count added l.threads) (count owns l.threads)
    → let l' = run is l in Right l'.lock_flag (count added l'.threads) (count owns l'.threads)
unfolding run
run-Right [] l few r = r
run-Right (i ∷ is) l few r =
    let (r', same) =
      step-Right l.threads i l.lock_flag 0 0 (omega arith) (omega arith) (omega (arith, r)) in
    run-Right is (step_in l.threads i l.lock_flag) (omega (arith, same)) (omega (arith, r'))

make_counts :
    (n : ℕ)
    → (length (make n).threads ≡ n)
      × (count added (make n).threads ≡ 0)
      × (count owns (make n).threads ≡ 0)
make_counts zero = (refl, refl, refl)
make_counts (suc n) = omega (arith, make_counts n)

-- Fewer than 2 ^ 11 threads, in any order of their steps: at most one has the write lock.
pub run_excludes : (n : ℕ) (is : List ℕ) → n < 2 ^ 11 → count owns (run is (make n)).threads ≤ 1
run_excludes n is few =
    let (long, none_added, none_owns) = make_counts n in
    (run-Right is (make n) (omega (arith, long)) (omega (arith, none_added, none_owns))).1

-- 1 for a thread that is in a call or inside.
abbrev pub busy : Place → ℕ
busy outside = 0
busy _ = 1

added-busy : (ps : List Place) → count added ps ≤ count busy ps
added-busy [] = omega arith
added-busy (p ∷ ps) = ground (arith, added-busy ps)

-- When none of fewer than 2 ^ 11 threads is in a call and none is inside, the flag is 0 again,
-- whatever adds were made and taken back before.
pub run_frees :
    (n : ℕ) (is : List ℕ)
    → n < 2 ^ 11
    → count busy (run is (make n)).threads ≡ 0
    → (run is (make n)).lock_flag ≡ 0
run_frees n is few idle =
    let (long, none_added, none_owns) = make_counts n in
    let r : Right (run is (make n)).lock_flag (count added (run is (make n)).threads)
        (count owns (run is (make n)).threads) =
      run-Right is (make n) (omega (arith, long)) (omega (arith, none_added, none_owns)) in
    omega (arith, r, added-busy (run is (make n)).threads, idle)
