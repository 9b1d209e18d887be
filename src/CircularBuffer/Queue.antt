-- ===== src/CircularBuffer/Queue.antt =====
-- `CircularBuffer` against the byte queue that it holds: what a session relies on when it puts
-- bytes in at `GetBuffer` and takes them out from `GetBufferStart`.
use mathlib.Core.List.{append-nil, append_assoc}
use gsp.Prelude.{
  ℕ, ◌+◌, ◌-◌, ◌≤◌, ◌<◌, ◌≡◌, ap, ap₂, ◌∙◌, ◌⊎◌, inl, inr, Option, none, some, List, [], ◌++◌,
  arith, length, drop, length-append, dec_lt, drop-append_le, drop-append_ge, drop-of-le,
}
use gsp.CircularBuffer.Memory.{
  window, copy, length-window, drop-window, window-append, window-copy_self, window-copy_apart,
  window-move_down,
}
use gsp.CircularBuffer.Invariant.{IsValid, get_free_space_size-IsValid}
use gsp.CircularBuffer.{
  CircularBuffer, get_free_space_size, get_stored_size, get_contiguious_bytes, get_buffer, commit,
  get_buffer_start, remove,
}

abbrev pub offset : Option ℕ → ℕ
offset none = 0
offset (some p) = p

-- Oldest first: region A, then region B.
abbrev pub contents : CircularBuffer → List ℕ
contents b = window b.bytes b.a_pointer b.a_size ++ window b.bytes (offset b.b_pointer) b.b_size

-- `memcpy` to `GetBuffer`, then `Commit`, as `Session::PostSend` does after `GetFreeSpaceSize`.
unfoldable pub store : CircularBuffer → List ℕ → CircularBuffer
unfolding get_buffer commit
store b src = commit (record b { bytes = copy b.bytes (get_buffer b) src }) (length src)

-- The bytes from `GetBufferStart` on, `GetContiguiousBytes` of them.
unfoldable pub peek : CircularBuffer → List ℕ
unfolding get_buffer_start get_contiguious_bytes
peek b = window b.bytes (offset (get_buffer_start b)) (get_contiguious_bytes b)

pub length-contents : (b : CircularBuffer) → length (contents b) ≡ b.a_size + b.b_size
length-contents b = omega (
  arith,
  length-append (window b.bytes b.a_pointer b.a_size)
      (window b.bytes (offset b.b_pointer) b.b_size),
  length-window b.bytes b.a_pointer b.a_size,
  length-window b.bytes (offset b.b_pointer) b.b_size,
)

-- In a valid buffer `GetStoredSize` is the length of the queue.
pub stored_size_lem : (b : CircularBuffer) → IsValid b → get_stored_size b ≡ length (contents b)
unfolding get_stored_size
stored_size_lem b v = ground (arith, length-contents b)

pub contents-get_free_space_size :
    (b : CircularBuffer) → IsValid b → contents (get_free_space_size b).1 ≡ contents b
unfolding get_free_space_size
contents-get_free_space_size b v = ground arith

-- In a valid buffer the free space that `GetFreeSpaceSize` gives lies behind `GetBuffer` inside the
-- storage, and with the stored bytes it is no more than the capacity.
pub free_space_bounds :
    (b : CircularBuffer)
    → IsValid b
    → let (n, b') = get_free_space_size b in
      (get_buffer b' + n ≤ b.capacity) × (n + get_stored_size b ≤ b.capacity)
unfolding get_free_space_size get_buffer get_stored_size
free_space_bounds b v = ground arith

-- A copy to the end of a window extends the window by the copied bytes.
window-copy_end :
    (f : ℕ → ℕ) (p n : ℕ) (src : List ℕ)
    → window (copy f (p + n) src) p (n + length src) ≡ window f p n ++ src
window-copy_end f p n src =
    window-append (copy f (p + n) src) p n (length src)
    ∙ ap₂ ◌++◌ (window-copy_apart f (p + n) src p n (inl (omega arith)))
        (window-copy_self f (p + n) src)

contents-store_a :
    (b : CircularBuffer) (src : List ℕ)
    → IsValid b
    → b.b_pointer ≡ none
    → b.a_pointer + b.a_size + length src ≤ b.capacity
    → contents (store b src) ≡ contents b ++ src
unfolding store
contents-store_a b src v e room = ground (
  arith,
  window-copy_end b.bytes b.a_pointer b.a_size src,
  append-nil (window b.bytes b.a_pointer b.a_size),
  append-nil (window b.bytes b.a_pointer b.a_size ++ src),
)

contents-store_b :
    (b : CircularBuffer) (src : List ℕ)
    → IsValid b
    → b.b_pointer ≡ some 0
    → b.b_size + length src ≤ b.a_pointer
    → contents (store b src) ≡ contents b ++ src
unfolding store
contents-store_b b src v e room = ground (
  arith,
  window-copy_end b.bytes 0 b.b_size src,
  window-copy_apart b.bytes (0 + b.b_size) src b.a_pointer b.a_size,
  append_assoc (window b.bytes b.a_pointer b.a_size) (window b.bytes 0 b.b_size) src,
)

free_space_cases :
    (b : CircularBuffer) (len : ℕ)
    → IsValid b
    → len ≤ (get_free_space_size b).0
    → let b' = (get_free_space_size b).1 in
      ((b'.b_pointer ≡ none) × (b'.a_pointer + b'.a_size + len ≤ b'.capacity))
      ⊎ ((b'.b_pointer ≡ some 0) × (b'.b_size + len ≤ b'.a_pointer))
unfolding get_free_space_size
free_space_cases b len v h = ground arith

-- Bytes that fit in what `GetFreeSpaceSize` gives, copied to `GetBuffer` and committed, go to the
-- end of a valid buffer's queue and change nothing else of it.
pub contents-store :
    (b : CircularBuffer) (src : List ℕ)
    → IsValid b
    → length src ≤ (get_free_space_size b).0
    → contents (store (get_free_space_size b).1 src) ≡ contents b ++ src
contents-store b src v h = elim (free_space_cases b (length src) v h) [
  | inl (e, room) ↦
      contents-store_a (get_free_space_size b).1 src (get_free_space_size-IsValid b v) e room
      ∙ ap (λ q. q ++ src) (contents-get_free_space_size b v)
  | inr (e, room) ↦
      contents-store_b (get_free_space_size b).1 src (get_free_space_size-IsValid b v) e room
      ∙ ap (λ q. q ++ src) (contents-get_free_space_size b v)
]

-- A valid buffer is valid again after bytes that fit are copied to `GetBuffer` and committed.
pub store-IsValid :
    (b : CircularBuffer) (src : List ℕ)
    → IsValid b
    → length src ≤ (get_free_space_size b).0
    → IsValid (store (get_free_space_size b).1 src)
unfolding store get_free_space_size
store-IsValid b src v h = ground arith

-- `Remove` inside region A.
contents-remove_a :
    (b : CircularBuffer) (len : ℕ)
    → IsValid b
    → len < b.a_size
    → contents (remove b len) ≡ drop len (contents b)
unfolding remove
contents-remove_a b len v h = ground (
  arith,
  drop-append_le len (window b.bytes b.a_pointer b.a_size)
      (window b.bytes (offset b.b_pointer) b.b_size),
  drop-window b.bytes b.a_pointer b.a_size len,
  length-window b.bytes b.a_pointer b.a_size,
)

-- The bytes of B that are left, from where they stand to the front of the storage.
contents-remove_b :
    (b : CircularBuffer) (len : ℕ)
    → IsValid b
    → b.a_size ≤ len
    → len < b.a_size + b.b_size
    → contents (remove b len) ≡ drop len (contents b)
unfolding remove
contents-remove_b b len v h k = ground (
  arith,
  drop-append_ge len (window b.bytes b.a_pointer b.a_size) (window b.bytes 0 b.b_size),
  drop-window b.bytes 0 b.b_size (len - b.a_size),
  length-window b.bytes b.a_pointer b.a_size,
  window-move_down b.bytes (len - b.a_size) (b.b_size - (len - b.a_size)),
  append-nil (window b.bytes 0 b.b_size),
  append-nil (window b.bytes (len - b.a_size) (b.b_size - (len - b.a_size))),
)

contents-remove_all :
    (b : CircularBuffer) (len : ℕ)
    → IsValid b
    → b.a_size + b.b_size ≤ len
    → contents (remove b len) ≡ drop len (contents b)
unfolding remove
contents-remove_all b len v h = ground (arith, drop-of-le len (contents b), length-contents b)

-- `Remove` of any number of bytes drops that many from the front of a valid buffer's queue, and all
-- of them if there are not as many.
pub contents-remove :
    (b : CircularBuffer) (len : ℕ) → IsValid b → contents (remove b len) ≡ drop len (contents b)
contents-remove b len v = elim (dec_lt len b.a_size) [
  | yes h ↦ contents-remove_a b len v h
  | no h ↦ elim (dec_lt len (b.a_size + b.b_size)) [
    | yes k ↦ contents-remove_b b len v (omega arith) k
    | no k ↦ contents-remove_all b len v (omega arith)
  ]
]

-- The bytes from `GetBufferStart` on, `GetContiguiousBytes` of them, are the front of a valid
-- buffer's queue.
pub contents-peek :
    (b : CircularBuffer)
    → IsValid b
    → contents b ≡ peek b ++ drop (get_contiguious_bytes b) (contents b)
unfolding peek get_contiguious_bytes get_buffer_start
contents-peek b v = ground (
  arith,
  drop-append_ge b.a_size (window b.bytes b.a_pointer b.a_size)
      (window b.bytes (offset b.b_pointer) b.b_size),
  length-window b.bytes b.a_pointer b.a_size,
)

-- In a valid buffer `GetContiguiousBytes` is the number of bytes to read at `GetBufferStart`, these
-- lie inside the storage, and it is 0 only when the queue is empty.
pub peek_bounds :
    (b : CircularBuffer)
    → IsValid b
    → (length (peek b) ≡ get_contiguious_bytes b)
      × (offset (get_buffer_start b) + get_contiguious_bytes b ≤ b.capacity)
      × (get_contiguious_bytes b ≡ 0 → contents b ≡ [])
unfolding peek get_contiguious_bytes get_buffer_start
peek_bounds b v = (
  length-window b.bytes (offset (get_buffer_start b)) (get_contiguious_bytes b),
  ground arith,
  λ e. ground arith,
)
