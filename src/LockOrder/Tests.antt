-- ===== src/LockOrder/Tests.antt =====
-- Three locks, two of them inside the first.
use gsp.Prelude.{◌+◌, ◌≤◌, ◌≡◌, refl, some, arith}
use gsp.LockOrder.{make}
use gsp.LockOrder.Stack.{IsValid, Nested, nothing, holding, depth, calls, calls_restore}

abbrev two_inside : Nested
two_inside = holding 1 (holding 2 nothing (holding 3 nothing nothing)) nothing

make-IsValid : IsValid (make 7)
make-IsValid = record {
  depth = omega arith;
  held = λ i lt. absurd (omega arith);
  clear = λ i ge. refl;
}

shallow : 0 + depth two_inside ≤ 32
unfolding depth
shallow = omega arith

calls_restore_example : calls two_inside (make 7) ≡ some (make 7)
calls_restore_example = calls_restore two_inside (make 7) make-IsValid shallow
