-- ===== src/DummyClients/Counting.antt =====
-- How many contexts of each kind a client has with the kernel.
use gsp.Prelude.{
  ℕ, zero, suc, ◌+◌, ◌≤◌, ◌≡◌, ◌≢◌, refl, some, List, [], ◌∷◌, arith, ◌==◌, if◌then◌else◌,
  get_elem?,
}
use gsp.DummyClients.State.{
  IoType, io_send, io_recv, io_recv_zero, io_disconnect, io_connect, IoContext,
}

abbrev pub remove_at : List IoContext → ℕ → List IoContext
remove_at [] i = []
remove_at (c ∷ cs) zero = cs
remove_at (c ∷ cs) (suc i) = c ∷ remove_at cs i

-- 1 for a context of the session `s` whose type has weight 1.
abbrev pub weight : (IoType → ℕ) → ℕ → IoContext → ℕ
weight k s c = if c.session == s then k c.io_type else 0

-- Every context holds a reference.
abbrev pub holds : IoType → ℕ
holds _ = 1

-- Those that carry the session's own reference on: a disconnect gives it up.
abbrev pub keeps : IoType → ℕ
keeps io_connect = 1
keeps io_disconnect = 1
keeps _ = 0

-- Those of the connect and receive cycle.
abbrev pub cycles : IoType → ℕ
cycles io_connect = 1
cycles io_recv = 1
cycles io_recv_zero = 1
cycles _ = 0

abbrev pub sends : IoType → ℕ
sends io_send = 1
sends _ = 0

module _ (k : IoType → ℕ) (s : ℕ) where
  pub total : List IoContext → ℕ
  total [] = 0
  total (c ∷ cs) = weight k s c + total cs

  pub total-nil : total [] ≡ 0
  unfolding total
  total-nil = refl

  pub total-remove_at :
      (cs : List IoContext) (i : ℕ) (c : IoContext)
      → get_elem? cs i ≡ some c
      → total cs ≡ weight k s c + total (remove_at cs i)
  unfolding total
  total-remove_at [] i c e = ground arith
  total-remove_at (d ∷ cs) zero c e = ground arith
  total-remove_at (d ∷ cs) (suc i) c e = ground (arith, total-remove_at cs i c e)

  pub total_self :
      (c : IoContext) (cs : List IoContext)
      → c.session ≡ s
      → total (c ∷ cs) ≡ k c.io_type + total cs
  unfolding total
  total_self c cs e = ground arith

  pub total_other :
      (c : IoContext) (cs : List IoContext) → c.session ≢ s → total (c ∷ cs) ≡ total cs
  unfolding total
  total_other c cs ne = ground arith

  pub weight_self : (c : IoContext) → c.session ≡ s → weight k s c ≡ k c.io_type
  weight_self c e = ground arith

  pub weight_other : (c : IoContext) → c.session ≢ s → weight k s c ≡ 0
  weight_other c ne = ground arith

kinds : (t : IoType) → holds t ≤ keeps t + cycles t + sends t
kinds io_send = omega arith
kinds io_recv = omega arith
kinds io_recv_zero = omega arith
kinds io_disconnect = omega arith
kinds io_connect = omega arith

pub total-holds-le :
    (s : ℕ) (cs : List IoContext)
    → total holds s cs ≤ total keeps s cs + total cycles s cs + total sends s cs
unfolding total
total-holds-le s [] = omega arith
total-holds-le s (c ∷ cs) = ground (arith, total-holds-le s cs, kinds c.io_type)
