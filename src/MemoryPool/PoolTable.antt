-- ===== src/MemoryPool/PoolTable.antt =====
-- `MemoryPool::MemoryPool()`: which pool serves which size.
use gsp.Prelude.{
  ℕ, zero, suc, ◌+◌, ◌-◌, ◌*◌, ◌/◌, Option, none, some, ltb, leb, ◌==◌, true, false, if◌then◌else◌,
}

-- `mSmallSizeMemoryPoolTable`: the block size of the pool, `none` for a null pointer.
abbrev pub Table : Type 0
Table = ℕ → Option ℕ

-- `MEMORY_ALLOCATION_ALIGNMENT` of a 64-bit build
abbrev pub alignment : ℕ
alignment = 16

-- The constructor of `SmallSizeMemoryPool`, which asserts that its blocks are not too small.
unfoldable pub new_pool : ℕ → Option ℕ
new_pool alloc_size = if ltb alignment alloc_size then some alloc_size else none

-- The inner loop, `n` rounds from `j` on.
unfoldable pub fill_range : ℕ → ℕ → ℕ → Table → Table
fill_range zero j pool t = t
fill_range (suc n) j pool t = fill_range n (j + 1) pool (λ k. if j == k then some pool else t k)

pub record Built : Type 0 where
  pub recent : ℕ
  pub table : Table

-- One outer loop, `for (i = …; i < limit; i += step)`, on fuel.
unfoldable pub make_pools : ℕ → ℕ → ℕ → ℕ → Built → Option Built
unfolding new_pool fill_range
make_pools zero i limit step b = none
make_pools (suc fuel) i limit step b = elim (ltb i limit) [
  | false ↦ some b
  | true ↦ elim (new_pool i) [
    | none ↦ none
    | some pool ↦
        make_pools fuel (i + step) limit step
          (record { recent = i; table = fill_range (i - b.recent) (b.recent + 1) pool b.table })
  ]
]

-- The three loops; 64 rounds are more than any of them makes.
unfoldable pub build_table : Option Table
build_table = elim (make_pools 64 32 1024 32 (record { recent = 0; table = λ _. none })) [
  | none ↦ none
  | some b ↦ elim (make_pools 64 1024 2048 128 b) [
    | none ↦ none
    | some b' ↦ elim (make_pools 64 2048 4097 256 b') [ none ↦ none | some b'' ↦ some b''.table ]
  ]
]

-- Sizes go up to the next multiple of 32 below 1024, of 128 below 2048, of 256 below 4096.
abbrev pub size_class : ℕ → ℕ
size_class n =
    if leb n 1024
    then (n + 31) / 32 * 32
    else if leb n 2048
    then (n + 127) / 128 * 128
    else (n + 255) / 256 * 256
