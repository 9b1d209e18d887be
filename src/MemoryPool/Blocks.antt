-- ===== src/MemoryPool/Blocks.antt =====
-- The heap invariant of `MemoryPool`: what a free block and a block in use look like.
use gsp.Prelude.{
  ℕ, In, Distinct, subst, ◌+◌, ◌≤◌, ◌<◌, ◌≡◌, refl, ◌∙◌, ◌⊎◌, inl, inr, ◌≢◌, Option, none, some,
  List, [], ◌∷◌, arith, ltb, ◌==◌, ==_refl, ==→eq, Bool-cases, if◌then◌else◌, long_limit, dec_le,
}
use gsp.MemoryPool.PoolTable.{size_class}
use gsp.MemoryPool.Classes.{build_table_lem}
use gsp.MemoryPool.{
  MemoryPool, MemAllocInfo, max_alloc_size, no_info, update, make, allocate, increment,
}

-- The storage behind an allocation of `real` bytes, header included.
abbrev pub block_size : ℕ → ℕ
block_size real = if ltb max_alloc_size real then real else size_class real

abbrev pub alloc_size_at : MemoryPool → ℕ → ℕ
alloc_size_at m h = (m.header h).alloc_size

-- A block that is handed out: it is allocated and its header holds a size.
abbrev pub InUse : MemoryPool → ℕ → Type 0
InUse m h = (0 < m.extent h) × (0 < alloc_size_at m h)

pub record IsValid (m : MemoryPool) : Type 0 where
  pub no_pool : m.table 0 ≡ none
  pub classes : (k : ℕ) → 0 < k → k ≤ 4096 → m.table k ≡ some (size_class k)
  pub free : (c h : ℕ) → In h (m.free_list c) → (alloc_size_at m h ≡ 0) × (m.extent h ≡ c) × (0 < c)
  pub distinct : (c : ℕ) → Distinct (m.free_list c)
  pub in_use : (h : ℕ) → InUse m h → m.extent h ≡ block_size (alloc_size_at m h)

-- The constructor succeeds, with a valid heap in which no address is allocated.
pub make-IsValid :
    (header : ℕ → MemAllocInfo)
    → (m : MemoryPool) × (make header ≡ some m) × IsValid m × ((h : ℕ) → m.extent h ≡ 0)
unfolding make
make-IsValid header =
    let (t, e, none_at_0, classes) = build_table_lem in
    (
      record {
        table = t;
        free_list = λ _. [];
        alloc_count = λ _. 0;
        header = header;
        extent = λ _. 0;
      },
      rw e,
      record {
        no_pool = none_at_0;
        classes = classes;
        free = λ c h i. absurd i;
        distinct = λ c. tt;
        in_use = λ h u. absurd (omega arith);
      },
      λ h. refl,
    )

-- The state after `h` went to a caller who asked for `real` bytes with the header.
abbrev pub granted : MemoryPool → ℕ → ℕ → (ℕ → List ℕ) → (ℕ → ℕ) → (ℕ → ℕ) → MemoryPool
granted m h real lists counts extents = record m {
  free_list = lists;
  alloc_count = counts;
  extent = extents;
  header = update m.header h (record { alloc_size = real; extra_info = no_info });
}

-- What a caller gets from `allocate m size fresh`: a block that nobody had, with room for `size`
-- bytes behind its header, and every other block as it was.
pub record Granted (header_size : ℕ) (m : MemoryPool) (size h : ℕ) (m' : MemoryPool) : Type 0 where
  pub valid : IsValid m'
  pub unused : ¬ InUse m h
  pub in_use : InUse m' h
  pub sized : alloc_size_at m' h ≡ size + header_size
  pub room : size + header_size ≤ m'.extent h
  pub others : (g : ℕ) → g ≢ h → (m'.header g ≡ m.header g) × (m'.extent g ≡ m.extent g)

le-block_size : (n : ℕ) → 0 < n → n ≤ block_size n
le-block_size n pos = ground arith

not_In :
    (m : MemoryPool)
    → IsValid m
    → (fresh : ℕ) → m.extent fresh ≡ 0
    → (c : ℕ) → ¬ In fresh (m.free_list c)
not_In m v fresh e c i = omega (arith, v.free c fresh i)

module _ (header_size : ℕ) (m : MemoryPool) (v : IsValid m) (size h : ℕ) (lists : ℕ → List ℕ)
    (counts extents : ℕ → ℕ) (pos : 0 < size + header_size) (unused : ¬ InUse m h)
    (kept : (c g : ℕ) → In g (lists c) → In g (m.free_list c) × (g ≢ h))
    (distinct : (c : ℕ) → Distinct (lists c)) (others : (g : ℕ) → g ≢ h → extents g ≡ m.extent g)
    (own : extents h ≡ block_size (size + header_size)) where
  granted-IsValid : IsValid (granted m h (size + header_size) lists counts extents)
  granted-IsValid = record {
    no_pool = v.no_pool;
    classes = v.classes;
    free = λ c g i. ground (arith, kept c g i, v.free c g (kept c g i).0, others g);
    distinct = distinct;
    in_use = λ g u. ground (arith, others g, v.in_use g);
  }

  pub granted-Granted :
      Granted header_size m size h (granted m h (size + header_size) lists counts extents)
  granted-Granted = record {
    valid = granted-IsValid;
    unused = unused;
    in_use = (omega (arith, own, le-block_size (size + header_size) pos), ground arith);
    sized = ground arith;
    room = omega (arith, own, le-block_size (size + header_size) pos);
    others = λ g ne. (ground arith, others g ne);
  }

list_cases : (xs : List ℕ) → (xs ≡ []) ⊎ ((b : ℕ) × (rest : List ℕ) × (xs ≡ b ∷ rest))
list_cases [] = inl refl
list_cases (x ∷ xs) = inr (x, xs, refl)

-- Without its first entry a list holds the same entries but that one.
module _ (lists : ℕ → List ℕ) (extent : ℕ → ℕ) (c b : ℕ) (rest : List ℕ)
    (e : lists c ≡ b ∷ rest) where
  pop_kept :
      Distinct (lists c)
      → extent b ≡ c
      → ((k g : ℕ) → In g (lists k) → extent g ≡ k)
      → (k g : ℕ) → In g (update lists c rest k)
      → In g (lists k) × (g ≢ b)
  pop_kept apart own all k g i = elim (Bool-cases (c == k)) [
    | inl q ↦
        let here : In g rest = rw q at i in
        let p : c ≡ k = ==→eq c k q in
        (
          subst (λ j. In g (lists j)) p (rw e (inr here)),
          λ s. (subst Distinct e apart).0 (subst (λ j. In j rest) s here),
        )
    | inr q ↦ let here : In g (lists k) = rw q at i in (here, λ s. ground (arith, all k g here))
  ]

pop-Distinct :
    (lists : ℕ → List ℕ) (c b : ℕ) (rest : List ℕ)
    → lists c ≡ b ∷ rest
    → ((k : ℕ) → Distinct (lists k))
    → (k : ℕ) → Distinct (update lists c rest k)
pop-Distinct lists c b rest e all k = elim (Bool-cases (c == k)) [
  | inl q ↦ rw q (subst Distinct e (all c)).1
  | inr q ↦ rw q (all k)
]

abbrev pub Allocates : ℕ → MemoryPool → ℕ → Option (ℕ × MemoryPool) → Type 0
Allocates header_size m size o =
    (h : ℕ) × (m' : MemoryPool) × (o ≡ some (h + header_size, m')) × Granted header_size m size h m'

module _ (header_size : ℕ) (m : MemoryPool) (v : IsValid m) (size fresh : ℕ)
    (small : size + header_size < long_limit) (pos : 0 < size + header_size)
    (new : m.extent fresh ≡ 0) where
  allocate_large :
      max_alloc_size < size + header_size
      → Allocates header_size m size (allocate header_size m size fresh)
  unfolding allocate
  allocate_large large = (
    fresh,
    granted m fresh (size + header_size) m.free_list m.alloc_count
        (update m.extent fresh (size + header_size)),
    ground arith,
    granted-Granted header_size m v size fresh m.free_list m.alloc_count
        (update m.extent fresh (size + header_size)) pos (λ u. omega arith)
        (λ c g i. (i, λ e. not_In m v fresh new c (subst (λ k. In k (m.free_list c)) e i)))
        v.distinct (λ g ne. ground arith) (ground arith),
  )

  module _ (c : ℕ) (pooled : size + header_size ≤ max_alloc_size)
      (at : m.table (size + header_size) ≡ some c)
      (block : c ≡ block_size (size + header_size)) where
    allocate_empty :
        m.free_list c ≡ [] → Allocates header_size m size (allocate header_size m size fresh)
    unfolding allocate
    allocate_empty e = (
      fresh,
      granted m fresh (size + header_size) m.free_list
          (update m.alloc_count c (increment (m.alloc_count c))) (update m.extent fresh c),
      ground arith,
      granted-Granted header_size m v size fresh m.free_list
          (update m.alloc_count c (increment (m.alloc_count c))) (update m.extent fresh c) pos
          (λ u. omega arith)
          (λ c' g i. (i, λ e'. not_In m v fresh new c' (subst (λ k. In k (m.free_list c')) e' i)))
          v.distinct (λ g ne. ground arith) (rw (==_refl fresh) block),
    )

    allocate_reused :
        (b : ℕ) (rest : List ℕ)
        → m.free_list c ≡ b ∷ rest
        → Allocates header_size m size (allocate header_size m size fresh)
    unfolding allocate
    allocate_reused b rest e =
        let free_b : (alloc_size_at m b ≡ 0) × (m.extent b ≡ c) × (0 < c) =
          v.free c b (rw e (inl refl)) in
        (
          b,
          granted m b (size + header_size) (update m.free_list c rest)
              (update m.alloc_count c (increment (m.alloc_count c))) m.extent,
          ground arith,
          granted-Granted header_size m v size b (update m.free_list c rest)
              (update m.alloc_count c (increment (m.alloc_count c))) m.extent pos (λ u. omega arith)
              (pop_kept m.free_list m.extent c b rest e (v.distinct c) free_b.1
                (λ k g i. (v.free k g i).1))
              (pop-Distinct m.free_list c b rest e v.distinct) (λ g ne. refl) (free_b.1 ∙ block),
        )

-- In a valid heap, an allocation that is not empty and whose size with the header fits an `int`
-- succeeds, if `_aligned_malloc` returns an address that is not allocated: no assertion fails, the
-- heap stays valid, and the caller gets a block of his own with room for it.
pub allocate-Granted :
    (header_size : ℕ) (m : MemoryPool) (size fresh : ℕ)
    → IsValid m
    → size + header_size < long_limit
    → 0 < size + header_size
    → m.extent fresh ≡ 0
    → Allocates header_size m size (allocate header_size m size fresh)
allocate-Granted header_size m size fresh v small pos new =
    elim (dec_le (size + header_size) max_alloc_size) [
      | no large ↦ allocate_large header_size m v size fresh small pos new (omega arith)
      | yes pooled ↦
          let c : ℕ = size_class (size + header_size) in
          let at : m.table (size + header_size) ≡ some c =
            v.classes (size + header_size) pos pooled in
          let block : c ≡ block_size (size + header_size) = ground arith in
          elim (list_cases (m.free_list c)) [
            | inl e ↦ allocate_empty header_size m v size fresh small pos new c pooled at block e
            | inr (b, rest, e) ↦
                allocate_reused header_size m v size fresh small pos new c pooled at block b rest e
          ]
    ]
