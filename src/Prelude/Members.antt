-- ===== src/Prelude/Members.antt =====
-- Membership and distinctness as predicates that compute, and the pigeonhole principle.
use Prim.Native.Nat.{ℕ, zero, suc, ◌+◌, ◌≤◌, ◌<◌}
use mathlib.Core.Path.{◌≡◌, refl, sym, subst, ◌∙◌}
use mathlib.Core.Logic.{◌⊎◌, inl, inr, ◌≢◌}
use mathlib.Core.List.{List, [], ◌∷◌}
use native.Mathlib.Omega.{arith}
use gsp.Prelude.Tests.{◌==◌, if◌then◌else◌, Bool-cases, ==→eq}
use gsp.Prelude.Lists.{length}

abbrev pub In : ℕ → List ℕ → Type 0
In a [] = ⊥
In a (x ∷ xs) = (x ≡ a) ⊎ In a xs

abbrev pub Distinct : List ℕ → Type 0
Distinct [] = Unit {0}
Distinct (x ∷ xs) = (¬ In x xs) × Distinct xs

-- The list without the first occurrence of `a`.
without : ℕ → List ℕ → List ℕ
without a [] = []
without a (x ∷ xs) = if x == a then xs else x ∷ without a xs

In-without : (a b : ℕ) (xs : List ℕ) → In b (without a xs) → In b xs
unfolding without
In-without a b [] i = i
In-without a b (x ∷ xs) i = elim (Bool-cases (x == a)) [
  | inl q ↦ inr (rw q at i)
  | inr q ↦ elim (rw q at i) [ inl e ↦ inl e | inr j ↦ inr (In-without a b xs j) ]
]

In-without_ne : (a b : ℕ) (xs : List ℕ) → Distinct xs → In b (without a xs) → b ≢ a
unfolding without
In-without_ne a b [] d i = absurd i
In-without_ne a b (x ∷ xs) d i = elim (Bool-cases (x == a)) [
  | inl q ↦ λ e. d.0 (subst (λ k. In k xs) (e ∙ sym (==→eq x a q)) (rw q at i))
  | inr q ↦ elim (rw q at i) [ inl e ↦ ground arith | inr j ↦ In-without_ne a b xs d.1 j ]
]

without-Distinct : (a : ℕ) (xs : List ℕ) → Distinct xs → Distinct (without a xs)
unfolding without
without-Distinct a [] d = tt
without-Distinct a (x ∷ xs) d = elim (Bool-cases (x == a)) [
  | inl q ↦ rw q d.1
  | inr q ↦ rw q ((λ i. d.0 (In-without a x xs i)), without-Distinct a xs d.1)
]

length-without : (a : ℕ) (xs : List ℕ) → length xs ≤ length (without a xs) + 1
unfolding without
length-without a [] = omega arith
length-without a (x ∷ xs) = ground (arith, length-without a xs)

-- Distinct numbers below `n` are at most `n`.
pub length_of_Distinct :
    (n : ℕ) (xs : List ℕ) → Distinct xs → ((a : ℕ) → In a xs → a < n) → length xs ≤ n
length_of_Distinct zero [] d below = omega arith
length_of_Distinct zero (x ∷ xs) d below = absurd (omega (arith, below x (inl refl)))
length_of_Distinct (suc n) xs d below = omega (
  arith,
  length-without n xs,
  length_of_Distinct n (without n xs) (without-Distinct n xs d)
      (λ a i. omega (arith, below a (In-without n a xs i), In-without_ne n a xs d i)),
)
