-- ===== src/Prelude/Effects.antt =====
-- The state monad of the handlers: `none` is a CRASH_ASSERT that fails, or a loop that has no fuel.
use mathlib.Core.Bool.{Bool, true, false}
use mathlib.Core.Option.{Option, none, some}
use gsp.Prelude.Tests.{◌==◌, if◌then◌else◌}
use Prim.Native.Nat.{ℕ}

abbrev pub Effect : Type 0 → Type 0 → Type 0
Effect S A = S → Option (A × S)

abbrev pub pure : {S A : Type 0} → A → Effect S A
pure a w = some (a, w)

infixl 5 ◌>>=◌ ◌>>◌
abbrev pub ◌>>=◌ : {S A B : Type 0} → Effect S A → (A → Effect S B) → Effect S B
◌>>=◌ m f w = elim (m w) [ none ↦ none | some (a, w') ↦ f a w' ]

abbrev pub ◌>>◌ : {S B : Type 0} → Effect S (Unit {0}) → Effect S B → Effect S B
m >> k = m >>= λ _. k

-- `CRASH_ASSERT`
abbrev pub crash_assert : {S : Type 0} → Bool → Effect S (Unit {0})
crash_assert true w = some (tt, w)
crash_assert false w = none

abbrev pub update {ℓ} : {A : Type ℓ} → (ℕ → A) → ℕ → A → ℕ → A
update f i a j = if i == j then a else f j
