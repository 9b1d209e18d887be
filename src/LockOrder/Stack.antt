-- ===== src/LockOrder/Stack.antt =====
-- `LockOrderChecker` as a stack: enters and leaves that are paired restore it.
use gsp.Prelude.{
  ℕ, ◌+◌, ◌-◌, ◌≤◌, ◌<◌, ◌≡◌, ◌≢◌, refl, ◌∙◌, ap, ap₂, Option, none, some, arith, ltb, ◌==◌,
  if◌then◌else◌, fun_ext,
}
use gsp.LockOrder.{max_lock_depth, LockOrderChecker, push, pop}

-- The entries below the top are locks, and those from the top on are null.
pub record IsValid (c : LockOrderChecker) : Type 0 where
  pub depth : c.stack_top_pos ≤ max_lock_depth
  pub held : (i : ℕ) → i < c.stack_top_pos → c.lock_stack i ≢ none
  pub clear : (i : ℕ) → c.stack_top_pos ≤ i → c.lock_stack i ≡ none

-- The calls that one thread makes, each lock being left after those that were taken inside it.
pub data Nested : Type 0 where
  nothing : Nested
  holding : ℕ → Nested → Nested → Nested

-- How many locks are held at once.
unfoldable pub depth : Nested → ℕ
depth nothing = 0
depth (holding lock inner later) =
    if ltb (depth inner + 1) (depth later) then depth later else depth inner + 1

-- The calls of `Push` and `Pop`, in their order.
unfoldable pub calls : Nested → LockOrderChecker → Option LockOrderChecker
calls nothing c = some c
calls (holding lock inner later) c = elim (push lock c) [
  | none ↦ none
  | some c' ↦ elim (calls inner c') [
    | none ↦ none
    | some c'' ↦ elim (pop lock c'') [ none ↦ none | some d ↦ calls later d ]
  ]
]

abbrev pushed : ℕ → LockOrderChecker → LockOrderChecker
pushed lock c = record c {
  lock_stack = λ i. if i == c.stack_top_pos then some lock else c.lock_stack i;
  stack_top_pos = c.stack_top_pos + 1;
}

pushed-IsValid :
    (lock : ℕ) (c : LockOrderChecker)
    → IsValid c
    → c.stack_top_pos < max_lock_depth
    → IsValid (pushed lock c)
pushed-IsValid lock c v room = record {
  depth = omega arith;
  held = λ i lt. ground (arith, v.held i);
  clear = λ i ge. ground (arith, v.clear i);
}

-- A stack with the same entries is the same stack.
same_stack :
    (c : LockOrderChecker) (stack : ℕ → Option ℕ) (top : ℕ)
    → ((i : ℕ) → stack i ≡ c.lock_stack i)
    → top ≡ c.stack_top_pos
    → record c { lock_stack = stack; stack_top_pos = top } ≡ c
same_stack c stack top h e =
    ap₂ (λ s t. record c { lock_stack = s; stack_top_pos = t }) (fun_ext h) e

pop-pushed : (lock : ℕ) (c : LockOrderChecker) → IsValid c → pop lock (pushed lock c) ≡ some c
unfolding pop
pop-pushed lock c v =
    ground arith
    ∙ ap some (
        same_stack c
          (λ i. if i == c.stack_top_pos + 1 - 1 then none else (pushed lock c).lock_stack i)
          (c.stack_top_pos + 1 - 1) (λ i. ground (arith, v.clear i)) (omega arith))

push_room :
    (lock : ℕ) (c : LockOrderChecker)
    → c.stack_top_pos < max_lock_depth
    → push lock c ≡ some (pushed lock c)
unfolding push
push_room lock c room = ground arith

depth_holding :
    (lock : ℕ) (inner later : Nested)
    → (depth inner + 1 ≤ depth (holding lock inner later))
      × (depth later ≤ depth (holding lock inner later))
unfolding depth
depth_holding lock inner later = ground arith

-- Locks that are left in the reverse order of their enters, and that are no more than 32 at once
-- with those held before, whatever their priorities, which `Push` does not compare: no assertion
-- fails, and the stack is as it was, null pointers included.
pub calls_restore :
    (n : Nested) (c : LockOrderChecker)
    → IsValid c
    → c.stack_top_pos + depth n ≤ max_lock_depth
    → calls n c ≡ some c
unfolding calls
calls_restore nothing c v room = refl
calls_restore (holding lock inner later) c v room =
    let (d, d') = depth_holding lock inner later in
    let less : c.stack_top_pos < max_lock_depth = omega (arith, d) in
    let within : calls inner (pushed lock c) ≡ some (pushed lock c) =
      calls_restore inner (pushed lock c) (pushed-IsValid lock c v less) (omega (arith, d)) in
    ground (
      arith,
      push_room lock c less,
      within,
      pop-pushed lock c v,
      calls_restore later c v (omega (arith, d')),
    )
