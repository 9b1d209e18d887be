-- ===== src/MemoryPool/Classes.antt =====
-- `MemoryPool::MemoryPool()` fills its table by the three size classes, and no assertion fails.
use gsp.Prelude.{
  ℕ, zero, suc, ◌+◌, ◌-◌, ◌*◌, ◌≤◌, ◌<◌, ◌≡◌, refl, ◌∙◌, inl, inr, Option, none, some, arith, ltb,
  leb, ◌==◌, ◌&&◌, if◌then◌else◌, Bool-cases, ap,
}
use gsp.MemoryPool.PoolTable.{
  Table, alignment, fill_range, Built, make_pools, build_table, size_class,
}

fill_range_lem :
    (n j pool : ℕ) (t : Table) (k : ℕ)
    → fill_range n j pool t k ≡ (if leb j k && ltb k (j + n) then some pool else t k)
unfolding fill_range
fill_range_lem zero j pool t k = ground arith
fill_range_lem (suc n) j pool t k =
    fill_range_lem n (j + 1) pool (λ k. if j == k then some pool else t k) k ∙ ground arith

-- The table is right up to `recent`.
abbrev IsGood : Built → Type 0
IsGood b = (b.table 0 ≡ none) × ((k : ℕ) → 0 < k → k ≤ b.recent → b.table k ≡ some (size_class k))

-- One more pool.
abbrev round : ℕ → Built → Built
round i b = record { recent = i; table = fill_range (i - b.recent) (b.recent + 1) i b.table }

round-IsGood :
    (i : ℕ) (b : Built)
    → b.recent < i
    → ((k : ℕ) → b.recent < k → k ≤ i → size_class k ≡ i)
    → IsGood b
    → IsGood (round i b)
round-IsGood i b h classes good = (
  fill_range_lem (i - b.recent) (b.recent + 1) i b.table 0 ∙ ground (arith, good.0),
  λ k pos le.
      fill_range_lem (i - b.recent) (b.recent + 1) i b.table k
      ∙ ground (arith, good.1 k, classes k),
)

make_pools_done :
    (fuel i limit step : ℕ) (b : Built) → limit ≤ i → make_pools (suc fuel) i limit step b ≡ some b
unfolding make_pools
make_pools_done fuel i limit step b h = ground arith

make_pools-round :
    (fuel i limit step : ℕ) (b : Built)
    → i < limit
    → alignment < i
    → make_pools (suc fuel) i limit step b ≡ make_pools fuel (i + step) limit step (round i b)
unfolding make_pools
make_pools-round fuel i limit step b h a = ground arith

-- The loop ends with a table that is right up to the last multiple of `step` below the limit.
abbrev Done : ℕ → ℕ → Option Built → Type 0
Done step limit o =
    (b : Built) × (o ≡ some b)
    × IsGood b
    × ((r : ℕ) × (b.recent ≡ step * r) × (b.recent < limit) × (limit ≤ step * r + step))

module _ (step limit first : ℕ) (wide : alignment < step)
    (classes : (q k : ℕ)
      → first ≤ step * q
      → step * q + step < limit
      → step * q < k
      → k ≤ step * q + step
      → size_class k ≡ step * q + step) where
  make_pools_lem :
      (fuel q : ℕ) (b : Built)
      → b.recent ≡ step * q
      → first ≤ step * q
      → step * q < limit
      → limit < step * q + fuel * step
      → IsGood b
      → Done step limit (make_pools fuel (step * q + step) limit step b)
  make_pools_lem zero q b e f lt enough good = absurd (omega arith)
  make_pools_lem (suc fuel) q b e f lt enough good =
      elim (Bool-cases (ltb (step * q + step) limit)) [
        | inr no_more ↦ (
          b,
          make_pools_done fuel _ limit step b (ground arith),
          good,
          (q, e, ground arith, ground arith),
        )
        | inl more ↦
            let (b', eq, good', rest) =
              make_pools_lem fuel (suc q) (round (step * q + step) b) (omega arith) (omega arith)
                (ground arith) (omega arith)
                (round-IsGood (step * q + step) b (omega arith)
                  (λ k lo hi. classes q k f (ground arith) (omega arith) hi) good) in
            (
              b',
              make_pools-round fuel _ limit step b (ground arith) (omega arith)
                  ∙ ap (λ i. make_pools fuel i limit step (round (step * q + step) b))
                      {x = step * q + step + step} {y = step * suc q + step} (omega arith)
                  ∙ eq,
              good',
              rest,
            )
      ]

classes_32 :
    (q k : ℕ)
    → 0 ≤ 32 * q
    → 32 * q + 32 < 1024
    → 32 * q < k
    → k ≤ 32 * q + 32
    → size_class k ≡ 32 * q + 32
classes_32 q k f lt lo hi = ground arith

classes_128 :
    (q k : ℕ)
    → 1024 ≤ 128 * q
    → 128 * q + 128 < 2048
    → 128 * q < k
    → k ≤ 128 * q + 128
    → size_class k ≡ 128 * q + 128
classes_128 q k f lt lo hi = ground arith

classes_256 :
    (q k : ℕ)
    → 2048 ≤ 256 * q
    → 256 * q + 256 < 4097
    → 256 * q < k
    → k ≤ 256 * q + 256
    → size_class k ≡ 256 * q + 256
classes_256 q k f lt lo hi = ground arith

-- The table before the first loop.
abbrev nothing : Built
nothing = record { recent = 0; table = λ _. none }

loop_32 : Done 32 1024 (make_pools 64 32 1024 32 nothing)
loop_32 =
    make_pools_lem 32 1024 0 (omega arith) classes_32 64 0 nothing (omega arith) (omega arith)
      (omega arith) (omega arith) (refl, λ k pos le. absurd (omega arith))

-- The first pool of the second loop also takes what the first loop left below it.
loop_128 : (b : Built) → b.recent ≡ 992 → IsGood b → Done 128 2048 (make_pools 64 1024 2048 128 b)
loop_128 b e good =
    let (b', eq, good', rest) =
      make_pools_lem 128 2048 1024 (omega arith) classes_128 63 8 (round 1024 b) (omega arith)
        (omega arith) (omega arith) (omega arith)
        (round-IsGood 1024 b (omega arith) (λ k lo hi. ground arith) good) in
    (b', make_pools-round 63 1024 2048 128 b (omega arith) (omega arith) ∙ eq, good', rest)

loop_256 : (b : Built) → b.recent ≡ 1920 → IsGood b → Done 256 4097 (make_pools 64 2048 4097 256 b)
loop_256 b e good =
    let (b', eq, good', rest) =
      make_pools_lem 256 4097 2048 (omega arith) classes_256 63 8 (round 2048 b) (omega arith)
        (omega arith) (omega arith) (omega arith)
        (round-IsGood 2048 b (omega arith) (λ k lo hi. ground arith) good) in
    (b', make_pools-round 63 2048 4097 256 b (omega arith) (omega arith) ∙ eq, good', rest)

three_loops :
    (b b' b'' : Built)
    → make_pools 64 32 1024 32 nothing ≡ some b
    → make_pools 64 1024 2048 128 b ≡ some b'
    → make_pools 64 2048 4097 256 b' ≡ some b''
    → build_table ≡ some b''.table
unfolding build_table
three_loops b b' b'' e e' e'' = ground arith

-- The constructor builds a table, and it gives each size from 1 to 4096 the pool of its class;
-- there is none for size 0.
pub build_table_lem :
    (t : Table) × (build_table ≡ some t)
    × (t 0 ≡ none)
    × ((k : ℕ) → 0 < k → k ≤ 4096 → t k ≡ some (size_class k))
build_table_lem =
    let (b, e, good, (r, er, lo, hi)) = loop_32 in
    let (b', e', good', (r', er', lo', hi')) = loop_128 b (omega arith) good in
    let (b'', e'', good'', (r'', er'', lo'', hi'')) = loop_256 b' (omega arith) good' in
    (b''.table, three_loops b b' b'' e e' e'', good''.0, λ k pos le. good''.1 k pos (omega arith))

-- A class is the least upper bound of its sizes that the table has, so a pool's block holds what is
-- asked of it, and at most 31, 127 or 255 bytes more.
pub size_class_bounds :
    (n : ℕ)
    → 0 < n
    → n ≤ 4096
    → (n ≤ size_class n)
      × (size_class n ≤ 4096)
      × (alignment < size_class n)
      × (size_class n < n + 256)
      × (size_class (size_class n) ≡ size_class n)
size_class_bounds n pos le = ground arith
