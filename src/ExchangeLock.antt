-- ===== src/ExchangeLock.antt =====
-- Homework6/EduServer_IOCP/FastSpinlock.cpp, by steps of its threads. One step reads or changes
-- `mLockFlag` once; how long a thread sleeps is left out.
pub mod Progress
mod Tests
use gsp.Prelude.{ℕ, zero, suc, ◌+◌, ◌%◌, ◌^◌, Bool, true, false, List, [], ◌∷◌, ◌==◌, if◌then◌else◌}

-- Where a thread stands: outside of the lock, before the exchange and before the sleep of a round
-- of `EnterLock`, with its `nloops`, and inside.
pub data Place : Type 0 where
  outside : Place
  entering : ℕ → Place
  sleeping : ℕ → Place
  inside : Place

pub record Moved : Type 0 where
  pub place : Place
  pub lock_flag : ℕ

-- One step of a thread, of `EnterLock` up to `inside` and then of `LeaveLock`.
unfoldable pub move : Place → ℕ → Moved
move outside f = record { place = entering 0; lock_flag = f }
move (entering nloops) f = record {
  place = if f == 0 then inside else sleeping nloops;
  lock_flag = 1;
}
move (sleeping nloops) f = record { place = entering ((nloops + 1) % 2 ^ 32); lock_flag = f }
move inside f = record { place = outside; lock_flag = 0 }

pub record ExchangeLock : Type 0 where
  pub lock_flag : ℕ
  pub threads : List Place

-- `FastSpinlock::FastSpinlock`, with `n` threads that may use the lock.
abbrev pub make : ℕ → ExchangeLock
make n = record { lock_flag = 0; threads = all_outside n }
  where
    all_outside : ℕ → List Place
    all_outside zero = []
    all_outside (suc n) = outside ∷ all_outside n

-- The thread at position `i` makes a step; there is nothing to do past the end.
unfoldable pub step_in : List Place → ℕ → ℕ → ExchangeLock
step_in [] i f = record { lock_flag = f; threads = [] }
step_in (p ∷ ps) zero f =
    let m : Moved = move p f in record { lock_flag = m.lock_flag; threads = m.place ∷ ps }
step_in (p ∷ ps) (suc i) f =
    let l : ExchangeLock = step_in ps i f in
    record { lock_flag = l.lock_flag; threads = p ∷ l.threads }

unfoldable pub run : List ℕ → ExchangeLock → ExchangeLock
run [] l = l
run (i ∷ is) l = run is (step_in l.threads i l.lock_flag)
