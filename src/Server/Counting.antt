-- ===== src/Server/Counting.antt =====
-- How many contexts of each kind a session has with the kernel.
use gsp.Prelude.{
  ℕ, zero, suc, ◌+◌, ◌≤◌, ◌≡◌, ◌≢◌, refl, Bool, true, false, some, List, [], ◌∷◌, arith, ◌==◌,
  if◌then◌else◌, get_elem?,
}
use gsp.Server.State.{IoType, io_send, io_recv, io_recv_zero, io_accept, io_disconnect, IoContext}
use gsp.Server.Worker.{remove_at}

-- 1 for a context of the session `s` whose type has weight 1.
abbrev pub weight : (IoType → ℕ) → ℕ → IoContext → ℕ
weight w s c = if c.session == s then w c.io_type else 0

module _ (w : IoType → ℕ) (s : ℕ) where
  pub total : List IoContext → ℕ
  total [] = 0
  total (c ∷ cs) = weight w s c + total cs

  pub total-nil : total [] ≡ 0
  unfolding total
  total-nil = refl

  pub total-cons : (c : IoContext) (cs : List IoContext) → total (c ∷ cs) ≡ weight w s c + total cs
  unfolding total
  total-cons c cs = refl

  pub total-remove_at :
      (cs : List IoContext) (i : ℕ) (c : IoContext)
      → get_elem? cs i ≡ some c
      → total cs ≡ total (c ∷ remove_at cs i)
  unfolding total
  total-remove_at [] i c e = ground arith
  total-remove_at (d ∷ cs) zero c e = ground arith
  total-remove_at (d ∷ cs) (suc i) c e = ground (arith, total-remove_at cs i c e)

pub total_self :
    (w : IoType → ℕ) (s : ℕ) (c : IoContext) (cs : List IoContext)
    → c.session ≡ s
    → total w s (c ∷ cs) ≡ w c.io_type + total w s cs
unfolding total
total_self w s c cs e = ground arith

pub total_other :
    (w : IoType → ℕ) (s : ℕ) (c : IoContext) (cs : List IoContext)
    → c.session ≢ s
    → total w s (c ∷ cs) ≡ total w s cs
unfolding total
total_other w s c cs ne = ground arith

-- Every context holds a reference.
abbrev pub holds : IoType → ℕ
holds _ = 1

-- Those that carry the issued session's own reference on: it is given up after a disconnect.
abbrev pub keeps : IoType → ℕ
keeps io_accept = 1
keeps io_disconnect = 1
keeps _ = 0

-- Those of the accept, receive and send cycle.
abbrev pub cycles : IoType → ℕ
cycles io_disconnect = 0
cycles _ = 1

weights : (s : ℕ) (c : IoContext) → weight holds s c ≤ weight keeps s c + weight cycles s c
weights s c = weights_of c.io_type (c.session == s)
  where
    weights_of :
        (t : IoType) (b : Bool)
        → (if b then 1 else 0) ≤ (if b then keeps t else 0) + (if b then cycles t else 0)
    weights_of t false = omega arith
    weights_of io_send true = omega arith
    weights_of io_recv true = omega arith
    weights_of io_recv_zero true = omega arith
    weights_of io_accept true = omega arith
    weights_of io_disconnect true = omega arith

pub total-holds-le :
    (s : ℕ) (cs : List IoContext) → total holds s cs ≤ total keeps s cs + total cycles s cs
unfolding total
total-holds-le s [] = omega arith
total-holds-le s (c ∷ cs) = omega (arith, weights s c, total-holds-le s cs)

cycles-le : (s : ℕ) (c : IoContext) → weight cycles s c ≤ weight holds s c
cycles-le s c = at c.io_type (c.session == s)
  where
    at : (t : IoType) (b : Bool) → (if b then cycles t else 0) ≤ (if b then 1 else 0)
    at t false = omega arith
    at io_send true = omega arith
    at io_recv true = omega arith
    at io_recv_zero true = omega arith
    at io_accept true = omega arith
    at io_disconnect true = omega arith

pub total-cycles-le : (s : ℕ) (cs : List IoContext) → total cycles s cs ≤ total holds s cs
unfolding total
total-cycles-le s [] = omega arith
total-cycles-le s (c ∷ cs) = omega (arith, cycles-le s c, total-cycles-le s cs)
