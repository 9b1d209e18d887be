-- ===== src/MemoryPool/Reuse.antt =====
-- What `Deallocate` does with a block in use: it goes back to its pool, once.
use gsp.Prelude.{
  ℕ, In, sym, ◌+◌, ◌-◌, ◌≤◌, ◌<◌, ◌≡◌, refl, ◌∙◌, ◌⊎◌, inl, inr, ◌≢◌, none, some, List, ◌∷◌, arith,
  ◌==◌, ==→eq, ==_refl, ap, Bool-cases, dec_le, subst,
}
use gsp.MemoryPool.PoolTable.{size_class}
use gsp.MemoryPool.{
  MemoryPool, MemAllocInfo, max_alloc_size, update, push, allocate, deallocate, increment,
  decrement,
}
use gsp.MemoryPool.Blocks.{block_size, granted, alloc_size_at, InUse, IsValid}

detach-attach : (h header_size : ℕ) → h + header_size - header_size ≡ h
detach-attach h header_size = omega arith

-- The block went back: a small one to the front of the free list of its size class, whose count
-- goes down, and the other pools are as they were; a large one to the heap.
abbrev pub Back : MemoryPool → ℕ → MemoryPool → Type 0
Back m h m' =
    let size : ℕ = alloc_size_at m h in
    let c : ℕ = size_class size in
    (size ≤ max_alloc_size
      → (m'.free_list c ≡ h ∷ m.free_list c)
        × (m'.alloc_count c ≡ decrement (m.alloc_count c))
        × ((k : ℕ)
            → k ≢ c
            → (m'.free_list k ≡ m.free_list k) × (m'.alloc_count k ≡ m.alloc_count k))
        × (m'.extent h ≡ m.extent h))
    × (max_alloc_size < size
        → (m'.extent h ≡ 0)
          × ((k : ℕ) → (m'.free_list k ≡ m.free_list k) × (m'.alloc_count k ≡ m.alloc_count k)))

-- `h` is free, and every other block is as it was.
pub record Freed (m : MemoryPool) (h : ℕ) (m' : MemoryPool) : Type 0 where
  pub valid : IsValid m'
  pub unused : ¬ InUse m' h
  pub cleared : alloc_size_at m' h ≡ 0
  pub returned : Back m h m'
  pub others : (g : ℕ) → g ≢ h → (m'.header g ≡ m.header g) × (m'.extent g ≡ m.extent g)

module _ (m : MemoryPool) (v : IsValid m) (h extra_info : ℕ) (used : InUse m h) where
  -- The header after `Deallocate`.
  abbrev cleared_header : ℕ → MemAllocInfo
  cleared_header = update m.header h (record { alloc_size = 0; extra_info = extra_info })

  -- The state after a block of the pool of `c` went back to it.
  abbrev pushed : ℕ → MemoryPool
  pushed c = push (record m { header = cleared_header }) c h

  not_free : (c : ℕ) → ¬ In h (m.free_list c)
  not_free c i = omega (arith, v.free c h i)

  pushed-In :
      (c k g : ℕ)
      → In g (update m.free_list c (h ∷ m.free_list c) k)
      → ((c ≡ k) × (h ≡ g)) ⊎ In g (m.free_list k)
  pushed-In c k g i = elim (Bool-cases (c == k)) [
    | inl q ↦ elim (rw q at i) [
      | inl e ↦ inl (==→eq c k q, e)
      | inr j ↦ inr (subst (λ l. In g (m.free_list l)) (==→eq c k q) j)
    ]
    | inr q ↦ inr (rw q at i)
  ]

  pushed-IsValid : (c : ℕ) → 0 < c → c ≡ block_size (alloc_size_at m h) → IsValid (pushed c)
  unfolding push
  pushed-IsValid c pos block = record {
    no_pool = v.no_pool;
    classes = v.classes;
    free = λ k g i. elim (pushed-In c k g i) [
      | inl (e, s) ↦ ground (arith, v.in_use h)
      | inr j ↦ ground (arith, v.free k g j)
    ];
    distinct = λ k. elim (Bool-cases (c == k)) [
      | inl q ↦ rw q (not_free c, v.distinct c)
      | inr q ↦ rw q (v.distinct k)
    ];
    in_use = λ g u. ground (arith, v.in_use g);
  }

  -- The state after a large block went back to the heap.
  abbrev released : MemoryPool
  released = record m { header = cleared_header; extent = update m.extent h 0 }

  released-IsValid : IsValid released
  released-IsValid = record {
    no_pool = v.no_pool;
    classes = v.classes;
    free = λ k g i. ground (arith, v.free k g i, not_free k);
    distinct = v.distinct;
    in_use = λ g u. ground (arith, v.in_use g);
  }

  module _ (header_size : ℕ) where
    deallocate_large :
        max_alloc_size < alloc_size_at m h
        → deallocate header_size m (h + header_size) extra_info ≡ some released
    unfolding deallocate
    deallocate_large large = rw (detach-attach h header_size) (ground arith)

    deallocate_pooled :
        (c : ℕ)
        → alloc_size_at m h ≤ max_alloc_size
        → m.table (alloc_size_at m h) ≡ some c
        → deallocate header_size m (h + header_size) extra_info ≡ some (pushed c)
    unfolding deallocate
    deallocate_pooled c small at = rw (detach-attach h header_size) (ground arith)

same_pool : (a b : MemoryPool) → some a ≡ some b → a ≡ b
same_pool a b e = cc

detach_freed :
    (header_size : ℕ) (m : MemoryPool) (h extra_info : ℕ)
    → alloc_size_at m h ≡ 0
    → deallocate header_size m (h + header_size) extra_info ≡ none
unfolding deallocate
detach_freed header_size m h extra_info e = rw (detach-attach h header_size) (ground arith)

-- In a valid heap a block in use is freed: no assertion fails, and the heap stays valid. A small
-- block is then the first of the free list of its size class, whose count goes down, and the other
-- free lists are the same; a large one goes back to the heap, and no free list changes. No other
-- block changes.
pub deallocate-Freed :
    (header_size : ℕ) (m : MemoryPool) (h extra_info : ℕ)
    → IsValid m
    → InUse m h
    → (m' : MemoryPool) × (deallocate header_size m (h + header_size) extra_info ≡ some m')
      × Freed m h m'
unfolding push
deallocate-Freed header_size m h extra_info v used =
    elim (dec_le (alloc_size_at m h) max_alloc_size) [
      | yes small ↦
          let c : ℕ = size_class (alloc_size_at m h) in
          (
            pushed m v h extra_info used c,
            deallocate_pooled m v h extra_info used header_size c small
                (v.classes (alloc_size_at m h) used.1 small),
            record {
              valid = pushed-IsValid m v h extra_info used c (ground arith) (ground arith);
              unused = λ u. ground arith;
              cleared = ground arith;
              returned = (
                λ le. (
                  rw (==_refl c) refl,
                  rw (==_refl c) refl,
                  λ k ne. (ground (arith, ne), ground (arith, ne)),
                  refl,
                ),
                λ lt. absurd (omega (arith, lt, small)),
              );
              others = λ g ne. (ground arith, refl);
            },
          )
      | no large ↦ (
        released m v h extra_info used,
        deallocate_large m v h extra_info used header_size (omega arith),
        record {
          valid = released-IsValid m v h extra_info used;
          unused = λ u. ground arith;
          cleared = ground arith;
          returned = (λ le. absurd (large le), λ lt. (rw (==_refl h) refl, λ k. (refl, refl)));
          others = λ g ne. (ground arith, ground arith);
        },
      )
    ]

-- In a valid heap a block in use that is given back is not taken back a second time at once: the
-- assertion of `Deallocate` fails.
pub deallocate_twice :
    (header_size : ℕ) (m m' : MemoryPool) (h extra_info later_info : ℕ)
    → IsValid m
    → InUse m h
    → deallocate header_size m (h + header_size) extra_info ≡ some m'
    → deallocate header_size m' (h + header_size) later_info ≡ none
deallocate_twice header_size m m' h extra_info later_info v used e =
    let (m'', e'', freed) = deallocate-Freed header_size m h extra_info v used in
    detach_freed header_size m' h later_info
      (subst (λ k. alloc_size_at k h ≡ 0) (same_pool m'' m' (sym e'' ∙ e)) freed.cleared)

pooled_allocate :
    (header_size : ℕ) (m : MemoryPool) (c h size fresh : ℕ) (rest : List ℕ)
    → m.table (size + header_size) ≡ some c
    → size + header_size ≤ max_alloc_size
    → m.free_list c ≡ h ∷ rest
    → alloc_size_at m h ≡ 0
    → (m' : MemoryPool) × (allocate header_size m size fresh ≡ some (h + header_size, m'))
unfolding allocate
pooled_allocate header_size m c h size fresh rest at small e zero = (
  granted m h (size + header_size) (update m.free_list c rest)
      (update m.alloc_count c (increment (m.alloc_count c))) m.extent,
  ground arith,
)

-- A valid heap hands out first what came back last: after a small block in use is given back, the
-- next allocation of its size class gets that block.
pub allocate_reuses :
    (header_size : ℕ) (m : MemoryPool) (h extra_info size fresh : ℕ)
    → IsValid m
    → InUse m h
    → alloc_size_at m h ≤ max_alloc_size
    → 0 < size + header_size
    → size + header_size ≤ max_alloc_size
    → size_class (size + header_size) ≡ size_class (alloc_size_at m h)
    → (m' : MemoryPool) × (m'' : MemoryPool) × (deallocate header_size m
          (h + header_size)
          extra_info
        ≡ some m')
      × (allocate header_size m' size fresh ≡ some (h + header_size, m''))
unfolding push
allocate_reuses header_size m h extra_info size fresh v used small pos le same =
    let c : ℕ = size_class (alloc_size_at m h) in
    let m' : MemoryPool = pushed m v h extra_info used c in
    let (m'', e) =
      pooled_allocate header_size m' c h size fresh (m.free_list c)
        (v.classes (size + header_size) pos le ∙ ap some same) le (rw (==_refl c))
        (rw (alloc_size_at, ==_refl h)) in
    (
      m',
      m'',
      deallocate_pooled m v h extra_info used header_size c small
          (v.classes (alloc_size_at m h) used.1 small),
      e,
    )
