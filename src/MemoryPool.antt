-- ===== src/MemoryPool.antt =====
-- Homework4/EduServer_IOCP/MemoryPool.h and MemoryPool.cpp: the size-classed allocator behind
-- `xnew`, `xdelete` and `STLAllocator`. `none` is a CRASH_ASSERT that fails. A small pool is known
-- by its block size. `_aligned_malloc` is the address that it returned, an argument of the calls;
-- `extent` records what was asked of it for each address that is not freed, 0 for the others.
pub mod PoolTable
pub mod Classes
pub mod Blocks
pub mod Reuse
mod Tests
use mathlib.Core.Option
use gsp.Prelude.{
  ℕ, ◌+◌, ◌-◌, ◌%◌, ◌^◌, ◌≡◌, Bool, true, false, Option, none, some, List, [], ◌∷◌, ltb, ◌==◌,
  if◌then◌else◌, long_limit,
}
pub use gsp.Prelude.{update}
use PoolTable.{Table, build_table}

-- `MAX_ALLOC_SIZE`
abbrev pub max_alloc_size : ℕ
max_alloc_size = 4096

-- `MemAllocInfo` without its list link. `extra_info` is the bit pattern of a `long`.
pub record MemAllocInfo : Type 0 where
  pub alloc_size : ℕ
  pub extra_info : ℕ

-- -1 as a `long`
abbrev pub no_info : ℕ
no_info = 2 ^ 32 - 1

pub record MemoryPool : Type 0 where
  pub table : Table
  pub free_list : ℕ → List ℕ
  pub alloc_count : ℕ → ℕ
  pub header : ℕ → MemAllocInfo
  pub extent : ℕ → ℕ

-- The constructor, over headers whose content does not matter.
unfoldable pub make : (ℕ → MemAllocInfo) → Option MemoryPool
make header =
    Option.map
      (λ table. record {
        table = table;
        free_list = λ _. [];
        alloc_count = λ _. 0;
        header = header;
        extent = λ _. 0;
      })
      build_table

-- `InterlockedIncrement` and `InterlockedDecrement` of a `long`.
abbrev pub increment : ℕ → ℕ
increment n = (n + 1) % 2 ^ 32

abbrev pub decrement : ℕ → ℕ
decrement n = (n + 2 ^ 32 - 1) % 2 ^ 32

-- `SmallSizeMemoryPool::Pop` on the pool of blocks of `c` bytes; `fresh` is what `_aligned_malloc`
-- returns if the pool is empty.
unfoldable pub pop : MemoryPool → ℕ → ℕ → Option (ℕ × MemoryPool)
pop m c fresh = elim (m.free_list c) [
  | [] ↦ some (
    fresh,
    record m {
      alloc_count = update m.alloc_count c (increment (m.alloc_count c));
      extent = update m.extent fresh c;
    },
  )
  | mem ∷ rest ↦
      if (m.header mem).alloc_size == 0
      then some (
        mem,
        record m {
          free_list = update m.free_list c rest;
          alloc_count = update m.alloc_count c (increment (m.alloc_count c));
        },
      )
      else none
]

-- `SmallSizeMemoryPool::Push`
unfoldable pub push : MemoryPool → ℕ → ℕ → MemoryPool
push m c ptr = record m {
  free_list = update m.free_list c (ptr ∷ m.free_list c);
  alloc_count = update m.alloc_count c (decrement (m.alloc_count c));
}

-- `sizeof(MemAllocInfo)` is the compiler's: a parameter.
module _ (header_size : ℕ) where
  -- `AttachMemAllocInfo`: the header is written, and the caller gets what stands behind it.
  unfoldable pub attach : MemoryPool → ℕ → ℕ → ℕ × MemoryPool
  attach m h size = (
    h + header_size,
    record m { header = update m.header h (record { alloc_size = size; extra_info = no_info }) },
  )

  -- `DetachMemAllocInfo`
  abbrev pub detach : ℕ → ℕ
  detach ptr = ptr - header_size

  -- `Allocate`. A size that overflows `int`, or a size with no pool, is a fault.
  unfoldable pub allocate : MemoryPool → ℕ → ℕ → Option (ℕ × MemoryPool)
  unfolding attach pop
  allocate m size fresh =
      let real : ℕ = size + header_size in
      if ltb real long_limit
      then (if ltb max_alloc_size real
          then some (attach (record m { extent = update m.extent fresh real }) fresh real)
          else elim (m.table real) [
            | none ↦ none
            | some c ↦ elim (pop m c fresh) [ none ↦ none | some (h, m') ↦ some (attach m' h real) ]
          ])
      else none

  -- `Deallocate`. `InterlockedExchange` takes the size and leaves 0.
  unfoldable pub deallocate : MemoryPool → ℕ → ℕ → Option MemoryPool
  unfolding push
  deallocate m ptr extra_info =
      let h : ℕ = detach ptr in
      let real : ℕ = (m.header h).alloc_size in
      let m' : MemoryPool = record m {
        header = update m.header h (record { alloc_size = 0; extra_info = extra_info });
      } in
      if ltb 0 real
      then (if ltb max_alloc_size real
          then some (record m' { extent = update m.extent h 0 })
          else elim (m.table real) [ none ↦ none | some c ↦ some (push m' c h) ])
      else none
