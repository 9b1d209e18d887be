-- ===== src/Session/Counting.antt =====
-- How many contexts of each kind a session of Homework6/EduServer_IOCP has with the kernel.
use gsp.Prelude.{
  ℕ, zero, suc, ◌+◌, ◌≤◌, ◌≡◌, ◌≢◌, refl, some, List, [], ◌∷◌, arith, ◌==◌, if◌then◌else◌,
  get_elem?, length,
}
use gsp.Session.State.{
  IoType, io_send, io_recv, io_recv_zero, io_disconnect, io_accept, io_connect, IoContext,
  DatabaseJob,
}

abbrev pub remove_at : List IoContext → ℕ → List IoContext
remove_at [] i = []
remove_at (c ∷ cs) zero = cs
remove_at (c ∷ cs) (suc i) = c ∷ remove_at cs i

-- 1 for a context of the session `s` whose type has weight 1.
abbrev pub weight : (IoType → ℕ) → ℕ → IoContext → ℕ
weight k s c = if c.session == s then k c.io_type else 0

-- Every context holds a reference.
abbrev pub holds : IoType → ℕ
holds _ = 1

-- Those that carry the session's own reference on: a disconnect gives it up.
abbrev pub keeps : IoType → ℕ
keeps io_accept = 1
keeps io_disconnect = 1
keeps _ = 0

-- Those of the accept and receive cycle.
abbrev pub cycles : IoType → ℕ
cycles io_accept = 1
cycles io_connect = 1
cycles io_recv = 1
cycles io_recv_zero = 1
cycles _ = 0

-- A server's own connects: a client's session has none.
abbrev pub connects : IoType → ℕ
connects io_connect = 1
connects _ = 0

abbrev pub sends : IoType → ℕ
sends io_send = 1
sends _ = 0

module _ (k : IoType → ℕ) (s : ℕ) where
  pub total : List IoContext → ℕ
  total [] = 0
  total (c ∷ cs) = weight k s c + total cs

  pub total-nil : total [] ≡ 0
  unfolding total
  total-nil = refl

  pub total-remove_at :
      (cs : List IoContext) (i : ℕ) (c : IoContext)
      → get_elem? cs i ≡ some c
      → total cs ≡ weight k s c + total (remove_at cs i)
  unfolding total
  total-remove_at [] i c e = ground arith
  total-remove_at (d ∷ cs) zero c e = ground arith
  total-remove_at (d ∷ cs) (suc i) c e = ground (arith, total-remove_at cs i c e)

  pub total_self :
      (c : IoContext) (cs : List IoContext)
      → c.session ≡ s
      → total (c ∷ cs) ≡ k c.io_type + total cs
  unfolding total
  total_self c cs e = ground arith

  pub total_other :
      (c : IoContext) (cs : List IoContext) → c.session ≢ s → total (c ∷ cs) ≡ total cs
  unfolding total
  total_other c cs ne = ground arith

  pub weight_self : (c : IoContext) → c.session ≡ s → weight k s c ≡ k c.io_type
  weight_self c e = ground arith

  pub weight_other : (c : IoContext) → c.session ≢ s → weight k s c ≡ 0
  weight_other c ne = ground arith

kinds : (t : IoType) → holds t ≤ keeps t + cycles t + sends t
kinds io_send = omega arith
kinds io_recv = omega arith
kinds io_recv_zero = omega arith
kinds io_disconnect = omega arith
kinds io_accept = omega arith
kinds io_connect = omega arith

pub total-holds-le :
    (s : ℕ) (cs : List IoContext)
    → total holds s cs ≤ total keeps s cs + total cycles s cs + total sends s cs
unfolding total
total-holds-le s [] = omega arith
total-holds-le s (c ∷ cs) = ground (arith, total-holds-le s cs, kinds c.io_type)

-- The database contexts of the session `s`.
unfoldable pub jobs_of : ℕ → List DatabaseJob → ℕ
jobs_of s [] = 0
jobs_of s (j ∷ js) = (if j.session_object == s then 1 else 0) + jobs_of s js

pub jobs_of-le : (s : ℕ) (js : List DatabaseJob) → jobs_of s js ≤ length js
unfolding jobs_of
jobs_of-le s [] = omega arith
jobs_of-le s (j ∷ js) = ground (arith, jobs_of-le s js)

pub jobs_of_self :
    (s : ℕ) (j : DatabaseJob) (js : List DatabaseJob)
    → j.session_object ≡ s
    → jobs_of s (j ∷ js) ≡ 1 + jobs_of s js
unfolding jobs_of
jobs_of_self s j js e = ground arith

pub jobs_of_other :
    (s : ℕ) (j : DatabaseJob) (js : List DatabaseJob)
    → j.session_object ≢ s
    → jobs_of s (j ∷ js) ≡ jobs_of s js
unfolding jobs_of
jobs_of_other s j js e = ground arith

cycles_lem : (t : IoType) → cycles t ≤ holds t
cycles_lem io_send = omega arith
cycles_lem io_recv = omega arith
cycles_lem io_recv_zero = omega arith
cycles_lem io_disconnect = omega arith
cycles_lem io_accept = omega arith
cycles_lem io_connect = omega arith

pub total-cycles-le : (s : ℕ) (cs : List IoContext) → total cycles s cs ≤ total holds s cs
unfolding total
total-cycles-le s [] = omega arith
total-cycles-le s (c ∷ cs) = ground (arith, total-cycles-le s cs, cycles_lem c.io_type)
