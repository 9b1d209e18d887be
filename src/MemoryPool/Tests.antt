-- ===== src/MemoryPool/Tests.antt =====
-- A pool with a header of 16 bytes: a block of 100 bytes is handed out, given back, and handed out
-- again.
use gsp.Prelude.{ℕ, ◌+◌, ◌≤◌, ◌<◌, ◌≡◌, some, arith}
use gsp.MemoryPool.{MemoryPool, MemAllocInfo, allocate, deallocate, make}
use gsp.MemoryPool.PoolTable.{size_class, alignment}
use gsp.MemoryPool.Classes.{size_class_bounds}
use gsp.MemoryPool.Blocks.{IsValid, make-IsValid, Allocates, allocate-Granted}
use gsp.MemoryPool.Reuse.{Freed, deallocate-Freed}

abbrev headers : ℕ → MemAllocInfo
headers _ = record { alloc_size = 0; extra_info = 0 }

fresh_pool : (m : MemoryPool) × (make headers ≡ some m) × IsValid m × ((h : ℕ) → m.extent h ≡ 0)
fresh_pool = make-IsValid headers

allocate-Granted_example : Allocates 16 fresh_pool.0 100 (allocate 16 fresh_pool.0 100 4096)
allocate-Granted_example =
    allocate-Granted 16 fresh_pool.0 100 4096 fresh_pool.2 (omega arith) (omega arith)
      (fresh_pool.3 4096)

first_block : Allocates 16 fresh_pool.0 100 (allocate 16 fresh_pool.0 100 4096)
first_block =
    allocate-Granted 16 fresh_pool.0 100 4096 fresh_pool.2 (omega arith) (omega arith)
      (fresh_pool.3 4096)

deallocate-Freed_example :
    (m' : MemoryPool) × (deallocate 16 first_block.1 (first_block.0 + 16) 7 ≡ some m')
    × Freed first_block.1 first_block.0 m'
deallocate-Freed_example =
    deallocate-Freed 16 first_block.1 first_block.0 7 first_block.3.valid first_block.3.in_use

given_back :
    (m' : MemoryPool) × (deallocate 16 first_block.1 (first_block.0 + 16) 7 ≡ some m')
    × Freed first_block.1 first_block.0 m'
given_back =
    deallocate-Freed 16 first_block.1 first_block.0 7 first_block.3.valid first_block.3.in_use

size_class_bounds_example :
    (1500 ≤ size_class 1500)
    × (size_class 1500 ≤ 4096)
    × (alignment < size_class 1500)
    × (size_class 1500 < 1500 + 256)
    × (size_class (size_class 1500) ≡ size_class 1500)
size_class_bounds_example = size_class_bounds 1500 (omega arith) (omega arith)
