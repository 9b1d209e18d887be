-- ===== src/ObjectPool.antt =====
-- Homework4/EduServer_IOCP/ObjectPool.h: `operator new` and `operator delete` on a free list whose
-- links stand in the free objects. An address is a number, 0 the null pointer, and a pointer has
-- the 8 bytes of x64: one that is stored spoils those that it overlaps. `size` is
-- `sizeof(TOBJECT)`, `alloc_count` is ALLOC_COUNT, and `fresh` is what `new uint8_t[...]` returns.
pub mod FreeList
mod Tests
use gsp.Prelude.{
  ℕ, zero, suc, ◌+◌, ◌-◌, ◌%◌, ◌^◌, Bool, true, false, Option, none, some, ltb, ◌==◌, ◌&&◌,
  if◌then◌else◌, long_limit,
}

-- `next` is the pointer that was stored at each address, `none` where no whole one is. The counts
-- are the bit patterns of an `int`.
pub record ObjectPool : Type 0 where
  pub free_list : ℕ
  pub next : ℕ → Option ℕ
  pub total_alloc_count : ℕ
  pub current_use_count : ℕ

abbrev pub pointer_size : ℕ
pointer_size = 8

-- The pointers at `p` and at `a` have a byte in common.
abbrev pub overlaps : ℕ → ℕ → Bool
overlaps p a = ltb a (p + pointer_size) && ltb p (a + pointer_size)

-- `*p = q`
unfoldable pub store_at : (ℕ → Option ℕ) → ℕ → ℕ → ℕ → Option ℕ
store_at next p q a = if p == a then some q else if overlaps p a then none else next a

-- The loop with `k` rounds left, `p` being `ppCurr`, and the last link.
unfoldable pub link : ℕ → ℕ → ℕ → (ℕ → Option ℕ) → ℕ → Option ℕ
link size zero p next = store_at next p 0
link size (suc k) p next = link size k (p + size) (store_at next p (p + size))

module _ (size alloc_count : ℕ) where
  unfoldable pub refill : ObjectPool → ℕ → ObjectPool
  refill pool fresh =
      if pool.free_list == 0
      then record pool {
        free_list = fresh;
        next = link size (alloc_count - 1) fresh pool.next;
        total_alloc_count = (pool.total_alloc_count + alloc_count) % 2 ^ 32;
      }
      else pool

  -- `none` is a link that was spoiled.
  unfoldable pub operator_new : ObjectPool → ℕ → Option (ℕ × ObjectPool)
  unfolding refill
  operator_new pool fresh =
      let filled : ObjectPool = refill pool fresh in
      elim (filled.next filled.free_list) [
        | none ↦ none
        | some next ↦ some (
          filled.free_list,
          record filled {
            free_list = next;
            current_use_count = (filled.current_use_count + 1) % 2 ^ 32;
          },
        )
      ]

-- `none` is a CRASH_ASSERT that fails.
unfoldable pub operator_delete : ObjectPool → ℕ → Option ObjectPool
operator_delete pool obj =
    if ltb 0 pool.current_use_count && ltb pool.current_use_count long_limit
    then some (record pool {
      current_use_count = pool.current_use_count - 1;
      next = store_at pool.next obj pool.free_list;
      free_list = obj;
    })
    else none
