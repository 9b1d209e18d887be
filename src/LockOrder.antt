-- ===== src/LockOrder.antt =====
-- Homework4/EduServer_IOCP/LockOrderChecker.h and LockOrderChecker.cpp: the locks that a thread
-- holds, latest last. The checks of the order itself are left to do in the source. `none` as a
-- result is a CRASH_ASSERT that fails, `none` in the stack a null pointer.
pub mod Stack
mod Tests
use gsp.Prelude.{ℕ, ◌+◌, ◌-◌, Option, none, some, ltb, ◌==◌, if◌then◌else◌}

-- `MAX_LOCK_DEPTH`
abbrev pub max_lock_depth : ℕ
max_lock_depth = 32

pub record LockOrderChecker : Type 0 where
  pub worker_thread_id : ℕ
  pub stack_top_pos : ℕ
  pub lock_stack : ℕ → Option ℕ

abbrev pub make : ℕ → LockOrderChecker
make tid = record { worker_thread_id = tid; stack_top_pos = 0; lock_stack = λ _. none }

unfoldable pub push : ℕ → LockOrderChecker → Option LockOrderChecker
push lock c =
    if ltb c.stack_top_pos max_lock_depth
    then some (record c {
      lock_stack = λ i. if i == c.stack_top_pos then some lock else c.lock_stack i;
      stack_top_pos = c.stack_top_pos + 1;
    })
    else none

-- The lock that is left is not compared.
unfoldable pub pop : ℕ → LockOrderChecker → Option LockOrderChecker
pop lock c =
    if ltb 0 c.stack_top_pos
    then some (record c {
      lock_stack = λ i. if i == c.stack_top_pos - 1 then none else c.lock_stack i;
      stack_top_pos = c.stack_top_pos - 1;
    })
    else none
