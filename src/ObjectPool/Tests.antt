-- ===== src/ObjectPool/Tests.antt =====
-- A pool of objects of 16 bytes, in chunks of three.
use gsp.Prelude.{ℕ, ◌≡◌, refl, inl, none, some, List, [], ◌∷◌, arith, ◌==◌, if◌then◌else◌}
use gsp.ObjectPool.{ObjectPool, store_at, operator_new, operator_delete}
use gsp.ObjectPool.FreeList.{Holds, available, operator_new-Holds}

abbrev empty : ObjectPool
empty = record { free_list = 0; next = λ _. none; total_alloc_count = 0; current_use_count = 0 }

empty-Holds : Holds empty []
empty-Holds = record { chain = refl; apart = tt; counted = omega arith }

operator_new-Holds_example :
    (obj : ℕ) × (rest : List ℕ) × (pool' : ObjectPool) × (operator_new 16 3 empty 4096
      ≡ some (obj, pool'))
    × (available 16 3 4096 [] ≡ obj ∷ rest)
    × Holds pool' rest
operator_new-Holds_example =
    operator_new-Holds 16 2 empty [] 4096 empty-Holds (omega arith) (omega arith)

-- One object is in use, and two are free.
abbrev one_used : ObjectPool
one_used = record {
  free_list = 4112;
  next = λ a. if a == 4112 then some 4128 else if a == 4128 then some 0 else none;
  total_alloc_count = 3;
  current_use_count = 1;
}

one_used-Holds : Holds one_used (4112 ∷ 4128 ∷ [])
one_used-Holds = record {
  chain = (refl, omega arith, 4128, refl, (refl, omega arith, 0, refl, refl));
  apart = ((inl (omega arith), tt), (tt, tt));
  counted = omega arith;
}

abbrev given_back : ObjectPool
given_back = record {
  free_list = 4096;
  next = store_at one_used.next 4096 4112;
  total_alloc_count = 3;
  current_use_count = 0;
}

back : operator_delete one_used 4096 ≡ some given_back
unfolding operator_delete
back = refl
