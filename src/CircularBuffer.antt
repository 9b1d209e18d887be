-- ===== src/CircularBuffer.antt =====
-- Homework4/EduServer_IOCP/CircularBuffer.h and CircularBuffer.cpp: the two-region byte buffer
-- behind every session. A pointer into the buffer is its offset from `mBuffer`, `nullptr` is
-- `none`, and the bytes are a function of the offset.
pub mod Memory
pub mod Invariant
pub mod Queue
mod Tests
use gsp.Prelude.{
  ℕ, ◌+◌, ◌-◌, ◌≡◌, Bool, true, false, Option, none, some, ◌&&◌, ltb, ◌==◌, if◌then◌else◌, add_u64,
  sub_u64,
}
use Memory.{Bytes, fill, move_down}

pub record CircularBuffer : Type 0 where
  pub bytes : Bytes
  pub buffer_end : ℕ
  pub a_pointer : ℕ
  pub a_size : ℕ
  pub b_pointer : Option ℕ
  pub b_size : ℕ
  pub capacity : ℕ

-- The constructor; `bytes` is what the fresh storage happens to hold.
unfoldable pub make : Bytes → ℕ → CircularBuffer
make bytes capacity = record {
  bytes = bytes;
  buffer_end = capacity;
  a_pointer = 0;
  a_size = 0;
  b_pointer = none;
  b_size = 0;
  capacity = capacity;
}

unfoldable pub buffer_reset : CircularBuffer → CircularBuffer
buffer_reset b = record {
  bytes = fill b.bytes b.capacity 0;
  buffer_end = b.capacity;
  a_pointer = 0;
  a_size = 0;
  b_pointer = none;
  b_size = 0;
  capacity = b.capacity;
}

abbrev pub get_a_free_space : CircularBuffer → ℕ
get_a_free_space b = sub_u64 (sub_u64 b.buffer_end b.a_pointer) b.a_size

abbrev pub get_space_before_a : CircularBuffer → ℕ
get_space_before_a b = b.a_pointer

abbrev pub get_b_free_space : CircularBuffer → ℕ
get_b_free_space b = elim b.b_pointer [
  | none ↦ 0
  | some p ↦ sub_u64 (sub_u64 b.a_pointer p) b.b_size
]

abbrev pub allocate_b : CircularBuffer → CircularBuffer
allocate_b b = record b { b_pointer = some 0 }

-- It may switch to region B, so it returns the buffer as well as the size.
unfoldable pub get_free_space_size : CircularBuffer → ℕ × CircularBuffer
get_free_space_size b = elim b.b_pointer [
  | some p ↦ (get_b_free_space b, b)
  | none ↦
      if ltb (get_a_free_space b) (get_space_before_a b)
      then (get_b_free_space (allocate_b b), allocate_b b)
      else (get_a_free_space b, b)
]

unfoldable pub get_stored_size : CircularBuffer → ℕ
get_stored_size b = add_u64 b.a_size b.b_size

unfoldable pub get_contiguious_bytes : CircularBuffer → ℕ
get_contiguious_bytes b = if ltb 0 b.a_size then b.a_size else b.b_size

-- Where the next byte is written.
unfoldable pub get_buffer : CircularBuffer → ℕ
get_buffer b = elim b.b_pointer [ none ↦ b.a_pointer + b.a_size | some p ↦ p + b.b_size ]

unfoldable pub commit : CircularBuffer → ℕ → CircularBuffer
commit b len = elim b.b_pointer [
  | none ↦ record b { a_size = add_u64 b.a_size len }
  | some p ↦ record b { b_size = add_u64 b.b_size len }
]

-- `nullptr` when there is no region to read.
unfoldable pub get_buffer_start : CircularBuffer → Option ℕ
get_buffer_start b = if ltb 0 b.a_size then some b.a_pointer else b.b_pointer

-- The first `if` of `Remove`: what is left to remove, and the buffer.
unfoldable pub remove_from_a : CircularBuffer → ℕ → ℕ × CircularBuffer
remove_from_a b cnt =
    if ltb 0 b.a_size
    then (let a_remove : ℕ = if ltb b.a_size cnt then b.a_size else cnt in
        (
          cnt - a_remove,
          record b { a_size = b.a_size - a_remove; a_pointer = b.a_pointer + a_remove },
        ))
    else (cnt, b)

-- The second `if`. Where `b_size` is not 0 the pointer is not null.
unfoldable pub remove_from_b : CircularBuffer → ℕ → CircularBuffer
remove_from_b b cnt =
    if ltb 0 cnt && ltb 0 b.b_size
    then (let b_remove : ℕ = if ltb b.b_size cnt then b.b_size else cnt in
        record b {
          b_size = b.b_size - b_remove;
          b_pointer = elim b.b_pointer [ none ↦ none | some p ↦ some (p + b_remove) ];
        })
    else b

-- The third `if`: when A is empty, B becomes A.
unfoldable pub switch_to_b : CircularBuffer → CircularBuffer
switch_to_b b =
    if b.a_size == 0
    then if ltb 0 b.b_size
      then record b {
        bytes = elim b.b_pointer [
          | none ↦ b.bytes
          | some p ↦ if p == 0 then b.bytes else move_down b.bytes p b.b_size
        ];
        a_pointer = 0;
        a_size = b.b_size;
        b_pointer = none;
        b_size = 0;
      }
      else record b { b_pointer = none; b_size = 0; a_pointer = 0; a_size = 0 }
    else b

unfoldable pub remove : CircularBuffer → ℕ → CircularBuffer
unfolding remove_from_a remove_from_b switch_to_b
remove b len = let (cnt, rest) = remove_from_a b len in switch_to_b (remove_from_b rest cnt)
