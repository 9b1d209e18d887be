-- ===== src/CircularBuffer/Invariant.antt =====
-- The representation invariant of `CircularBuffer`, kept by every operation.
use gsp.Prelude.{ℕ, ◌+◌, ◌^◌, ◌≤◌, ◌<◌, ◌≡◌, refl, Option, none, some, arith}
use gsp.CircularBuffer.Memory.{Bytes}
use gsp.CircularBuffer.{CircularBuffer, make, buffer_reset, get_free_space_size, commit, remove}

-- Region B starts at the front of the storage and ends before region A; an empty A has no B.
abbrev pub Regions : ℕ → ℕ → Option ℕ → ℕ → Type 0
Regions a_pointer a_size none b_size = (b_size ≡ 0) × (a_size ≡ 0 → a_pointer ≡ 0)
Regions a_pointer a_size (some p) b_size = (p ≡ 0) × (b_size ≤ a_pointer) × (0 < a_size)

pub record IsValid (b : CircularBuffer) : Type 0 where
  pub small : b.capacity < 2 ^ 63
  pub whole : b.buffer_end ≡ b.capacity
  pub fits : b.a_pointer + b.a_size ≤ b.capacity
  pub regions : Regions b.a_pointer b.a_size b.b_pointer b.b_size

pub make-IsValid : (f : Bytes) (n : ℕ) → n < 2 ^ 63 → IsValid (make f n)
unfolding make
make-IsValid f n h = record {
  small = h;
  whole = refl;
  fits = omega arith;
  regions = (refl, λ _. refl);
}

pub buffer_reset-IsValid : (b : CircularBuffer) → IsValid b → IsValid (buffer_reset b)
unfolding buffer_reset
buffer_reset-IsValid b v = ground arith

pub get_free_space_size-IsValid :
    (b : CircularBuffer) → IsValid b → IsValid (get_free_space_size b).1
unfolding get_free_space_size
get_free_space_size-IsValid b v = ground arith

-- A valid buffer is valid again after a commit of no more than `GetFreeSpaceSize` gave.
pub commit-IsValid :
    (b : CircularBuffer) (len : ℕ)
    → IsValid b
    → len ≤ (get_free_space_size b).0
    → IsValid (commit (get_free_space_size b).1 len)
unfolding commit get_free_space_size
commit-IsValid b len v h = ground arith

-- A valid buffer is valid again after `Remove` of any number of bytes.
pub remove-IsValid : (b : CircularBuffer) (len : ℕ) → IsValid b → IsValid (remove b len)
unfolding remove
remove-IsValid b len v = ground arith
