-- ===== src/Spinlock.antt =====
-- Homework4/EduServer_IOCP/FastSpinlock.h and FastSpinlock.cpp: the write side of the lock, by
-- steps of its threads. One step reads or changes `mLockFlag` once.
pub mod Exclusion
mod Tests
use gsp.Prelude.{
  ℕ, zero, suc, ◌+◌, ◌-◌, ◌*◌, ◌/◌, ◌%◌, ◌^◌, Bool, true, false, List, [], ◌∷◌, ◌==◌, if◌then◌else◌,
}

-- `LF_WRITE_FLAG`
abbrev pub write_flag : ℕ
write_flag = 2 ^ 20

-- `mLockFlag & LF_WRITE_MASK`: bits 20 to 30.
abbrev pub write_bits : ℕ → ℕ
write_bits lock_flag = lock_flag / 2 ^ 20 % 2 ^ 11 * 2 ^ 20

-- `mLockFlag & LF_READ_MASK`: bits 0 to 19.
abbrev pub read_bits : ℕ → ℕ
read_bits lock_flag = lock_flag % 2 ^ 20

-- `InterlockedAdd` of the write flag and of its negative, on the bit pattern of a `long`.
abbrev pub add_flag : ℕ → ℕ
add_flag lock_flag = (lock_flag + write_flag) % 2 ^ 32

abbrev pub sub_flag : ℕ → ℕ
sub_flag lock_flag = (lock_flag + (2 ^ 32 - write_flag)) % 2 ^ 32

-- Where a thread stands: outside of the lock, before the test of the inner loop, before the add,
-- before the subtraction that takes a failed add back, before the test for readers, and inside.
pub data Place : Type 0 where
  outside waiting adding backing_off draining inside : Place

pub record Moved : Type 0 where
  pub place : Place
  pub lock_flag : ℕ

-- One step of a thread, of `EnterWriteLock` up to `inside` and then of `LeaveWriteLock`.
unfoldable pub move : Place → ℕ → Moved
move outside f = record { place = waiting; lock_flag = f }
move waiting f = record { place = if write_bits f == 0 then adding else waiting; lock_flag = f }
move adding f = record {
  place = if write_bits (add_flag f) == write_flag then draining else backing_off;
  lock_flag = add_flag f;
}
move backing_off f = record { place = waiting; lock_flag = sub_flag f }
move draining f = record { place = if read_bits f == 0 then inside else draining; lock_flag = f }
move inside f = record { place = outside; lock_flag = sub_flag f }

pub record Spinlock : Type 0 where
  pub lock_flag : ℕ
  pub threads : List Place

-- `FastSpinlock::FastSpinlock`, with `n` threads that may use the lock.
abbrev pub make : ℕ → Spinlock
make n = record { lock_flag = 0; threads = all_outside n }
  where
    all_outside : ℕ → List Place
    all_outside zero = []
    all_outside (suc n) = outside ∷ all_outside n

-- The thread at position `i` makes a step; there is nothing to do past the end.
unfoldable pub step_in : List Place → ℕ → ℕ → Spinlock
step_in [] i f = record { lock_flag = f; threads = [] }
step_in (p ∷ ps) zero f =
    let m : Moved = move p f in record { lock_flag = m.lock_flag; threads = m.place ∷ ps }
step_in (p ∷ ps) (suc i) f =
    let l : Spinlock = step_in ps i f in record { lock_flag = l.lock_flag; threads = p ∷ l.threads }

unfoldable pub run : List ℕ → Spinlock → Spinlock
run [] l = l
run (i ∷ is) l = run is (step_in l.threads i l.lock_flag)
