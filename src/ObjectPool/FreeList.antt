-- ===== src/ObjectPool/FreeList.antt =====
-- The free list of `ObjectPool` as the list of the free objects.
use gsp.Prelude.{
  ℕ, zero, suc, ◌+◌, ◌-◌, ◌%◌, ◌^◌, ◌≤◌, ◌<◌, ◌≡◌, refl, ◌∙◌, ◌⊎◌, inl, inr, Option, some, List, [],
  ◌∷◌, arith, length, long_limit,
}
use gsp.ObjectPool.{ObjectPool, pointer_size, store_at, link, refill, operator_new, operator_delete}

-- The links from `p` on lead through these objects to the null pointer.
abbrev pub Chain : (ℕ → Option ℕ) → ℕ → List ℕ → Type 0
Chain next p [] = p ≡ 0
Chain next p (x ∷ xs) = (p ≡ x) × (0 < x) × (q : ℕ) × (next x ≡ some q) × Chain next q xs

-- A pointer at `a` has no byte in common with one at any of these.
abbrev pub Clear : ℕ → List ℕ → Type 0
Clear a [] = Unit {0}
Clear a (x ∷ xs) = ((a + pointer_size ≤ x) ⊎ (x + pointer_size ≤ a)) × Clear a xs

abbrev pub Apart : List ℕ → Type 0
Apart [] = Unit {0}
Apart (x ∷ xs) = Clear x xs × Apart xs

-- The pool has these free objects, from the front on.
pub record Holds (pool : ObjectPool) (free : List ℕ) : Type 0 where
  pub chain : Chain pool.next pool.free_list free
  pub apart : Apart free
  pub counted : (pool.current_use_count + length free) % 2 ^ 32 ≡ pool.total_alloc_count % 2 ^ 32

-- `k` objects of a chunk, from `p` on.
abbrev pub chunk : ℕ → ℕ → ℕ → List ℕ
chunk size zero p = []
chunk size (suc k) p = p ∷ chunk size k (p + size)

chunk-Clear : (size k p a : ℕ) → a + pointer_size ≤ p → Clear a (chunk size k p)
chunk-Clear size zero p a below = tt
chunk-Clear size (suc k) p a below =
    (inl below, chunk-Clear size k (p + size) a (omega (arith, below)))

chunk-Apart : (size k p : ℕ) → pointer_size ≤ size → Apart (chunk size k p)
chunk-Apart size zero p wide = tt
chunk-Apart size (suc k) p wide =
    (chunk-Clear size k (p + size) p (omega (arith, wide)), chunk-Apart size k (p + size) wide)

length-chunk : (size k p : ℕ) → length (chunk size k p) ≡ k
length-chunk size zero p = refl
length-chunk size (suc k) p = omega (arith, length-chunk size k (p + size))

store_at_here : (next : ℕ → Option ℕ) (p q : ℕ) → store_at next p q p ≡ some q
unfolding store_at
store_at_here next p q = ground arith

store_at_apart :
    (next : ℕ → Option ℕ) (p q a : ℕ)
    → (p + pointer_size ≤ a) ⊎ (a + pointer_size ≤ p)
    → store_at next p q a ≡ next a
unfolding store_at
store_at_apart next p q a (inl above) = ground (arith, above)
store_at_apart next p q a (inr below) = ground (arith, below)

-- The loop does not touch what is below the chunk.
link-below :
    (size k p : ℕ) (next : ℕ → Option ℕ) (a : ℕ)
    → a + pointer_size ≤ p
    → link size k p next a ≡ next a
unfolding link
link-below size zero p next a below = store_at_apart next p 0 a (inr below)
link-below size (suc k) p next a below =
    link-below size k (p + size) (store_at next p (p + size)) a (omega (arith, below))
    ∙ store_at_apart next p (p + size) a (inr below)

link-Chain :
    (size k p : ℕ) (next : ℕ → Option ℕ)
    → pointer_size ≤ size
    → 0 < p
    → Chain (link size k p next) p (chunk size (suc k) p)
unfolding link
link-Chain size zero p next wide pos = (refl, pos, 0, store_at_here next p 0, refl)
link-Chain size (suc k) p next wide pos = (
  refl,
  pos,
  p + size,
  link-below size k (p + size) (store_at next p (p + size)) p (omega (arith, wide))
      ∙ store_at_here next p (p + size),
  link-Chain size k (p + size) (store_at next p (p + size)) wide (omega (arith, pos)),
)

-- A link that is written beside the chain.
store_at-Chain :
    (next : ℕ → Option ℕ) (a v p : ℕ) (xs : List ℕ)
    → Clear a xs
    → Chain next p xs
    → Chain (store_at next a v) p xs
store_at-Chain next a v p [] clear c = c
store_at-Chain next a v p (x ∷ xs) clear (e, pos, q, at, c) =
    (e, pos, q, store_at_apart next a v x clear.0 ∙ at, store_at-Chain next a v q xs clear.1 c)

-- The free objects as `operator new` finds them, with a new chunk if there were none.
abbrev pub available : ℕ → ℕ → ℕ → List ℕ → List ℕ
available size alloc_count fresh [] = chunk size alloc_count fresh
available size alloc_count fresh (x ∷ xs) = x ∷ xs

-- Where an object has room for a pointer, which the code asks for and does not check: `operator
-- new` returns the first free object, and the free list has the others, no two of whose links
-- overlap; when there are none, these are the objects of a new chunk, ALLOC_COUNT of them, one
-- behind the other.
pub operator_new-Holds :
    (size count : ℕ) (pool : ObjectPool) (free : List ℕ) (fresh : ℕ)
    → Holds pool free
    → pointer_size ≤ size
    → 0 < fresh
    → (obj : ℕ) × (rest : List ℕ) × (pool' : ObjectPool) × (operator_new size (suc count) pool fresh
        ≡ some (obj, pool'))
      × (available size (suc count) fresh free ≡ obj ∷ rest)
      × Holds pool' rest
unfolding operator_new refill
operator_new-Holds size count pool [] fresh h wide pos =
    let (_, _, q, at, c) = link-Chain size count fresh pool.next wide pos in
    let apart : Apart (chunk size (suc count) fresh) = chunk-Apart size (suc count) fresh wide in
    (
      fresh,
      chunk size count (fresh + size),
      record pool {
        free_list = q;
        next = link size count fresh pool.next;
        total_alloc_count = (pool.total_alloc_count + suc count) % 2 ^ 32;
        current_use_count = (pool.current_use_count + 1) % 2 ^ 32;
      },
      ground (arith, h.chain, at),
      refl,
      record {
        chain = c;
        apart = apart.1;
        counted = ground (arith, h.chain, h.counted, length-chunk size count (fresh + size));
      },
    )
operator_new-Holds size count pool (x ∷ xs) fresh h wide pos =
    let (e, above, q, at, c) = h.chain in
    (
      x,
      xs,
      record pool { free_list = q; current_use_count = (pool.current_use_count + 1) % 2 ^ 32 },
      ground (arith, e, above, at),
      refl,
      record { chain = c; apart = h.apart.1; counted = ground (arith, h.counted) },
    )

-- `operator delete` of an object that overlaps no free one puts it at the front of the free list.
pub operator_delete-Holds :
    (pool : ObjectPool) (free : List ℕ) (obj : ℕ)
    → Holds pool free
    → Clear obj free
    → 0 < obj
    → 0 < pool.current_use_count
    → pool.current_use_count < long_limit
    → (pool' : ObjectPool) × (operator_delete pool obj ≡ some pool') × Holds pool' (obj ∷ free)
unfolding operator_delete
operator_delete-Holds pool free obj h clear pos used small = (
  record pool {
    current_use_count = pool.current_use_count - 1;
    next = store_at pool.next obj pool.free_list;
    free_list = obj;
  },
  ground arith,
  record {
    chain = (
      refl,
      pos,
      pool.free_list,
      store_at_here pool.next obj pool.free_list,
      store_at-Chain pool.next obj pool.free_list pool.free_list free clear h.chain,
    );
    apart = (clear, h.apart);
    counted = omega (arith, h.counted);
  },
)

-- The object that was given back last is handed out next.
pub operator_new-operator_delete :
    (size alloc_count : ℕ) (pool pool' : ObjectPool) (obj fresh : ℕ)
    → 0 < obj
    → operator_delete pool obj ≡ some pool'
    → (pool'' : ObjectPool) × (operator_new size alloc_count pool' fresh ≡ some (obj, pool''))
      × (pool''.free_list ≡ pool.free_list)
unfolding operator_new operator_delete refill
operator_new-operator_delete size alloc_count pool pool' obj fresh pos e = (
  record pool' {
    free_list = pool.free_list;
    current_use_count = (pool'.current_use_count + 1) % 2 ^ 32;
  },
  ground (arith, e, store_at_here pool.next obj pool.free_list),
  refl,
)
