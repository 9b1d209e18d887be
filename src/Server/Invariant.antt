-- ===== src/Server/Invariant.antt =====
-- The reference counts of the sessions: who holds a reference, and which sessions are free.
use gsp.Prelude.{
  ℕ, ◌+◌, ◌≤◌, ◌<◌, ◌^◌, ◌≡◌, ◌≢◌, refl, some, List, ◌∷◌, arith, subst, if◌then◌else◌, sub_u64,
  length, In, Distinct, get_elem?, sym, ◌∙◌,
}
use gsp.Server.State.{IoType, IoContext, ClientSession, Server, max_connection, update}
use gsp.Server.Counting.{
  total, holds, keeps, cycles, total-remove_at, total-holds-le, total_self, total_other,
}
use gsp.Server.Worker.{dequeue, remove_at}

-- 1 for a session that is connected.
abbrev pub linked : ClientSession → ℕ
linked c = if c.connected then 1 else 0

-- What holds of the session `t`. `issued t` is 1 between the issue of the session and the
-- completion of its disconnect; `extra` counts the contexts that a handler is working on.
pub record Facts (w : Server) (issued : ℕ → ℕ) (t extra : ℕ) : Type 0 where
  pub refs : (w.session t).ref_count ≡ total holds t w.pending + issued t + extra
  pub once : issued t ≤ 1
  pub owner : linked (w.session t) + total keeps t w.pending ≤ issued t
  pub cycle : total cycles t w.pending ≤ 1
  pub known : 0 < (w.session t).ref_count → t < max_connection

-- The free list holds unused sessions, once each, and with the sessions that are out it is
-- complete.
pub record FreeList (w : Server) : Type 0 where
  pub unused : (t : ℕ) → In t w.free_sessions → (w.session t).ref_count ≡ 0
  pub distinct : Distinct w.free_sessions
  pub bounded : (t : ℕ) → In t w.free_sessions → t < max_connection
  pub counted : length w.free_sessions + sub_u64 w.issue_count w.return_count ≡ max_connection
  pub words : (w.issue_count < 2 ^ 64) × (w.return_count < 2 ^ 64)

-- Between two rounds of the workers.
pub record IsValid (w : Server) (issued : ℕ → ℕ) : Type 0 where
  pub facts : (t : ℕ) → Facts w issued t 0
  pub free : FreeList w

-- While a handler works on the session `s`.
pub record Handling (w : Server) (issued : ℕ → ℕ) (s extra : ℕ) : Type 0 where
  pub here : Facts w issued s extra
  pub others : (t : ℕ) → t ≢ s → Facts w issued t 0
  pub free : FreeList w
  pub out : ¬ In s w.free_sessions
  pub bound : s < max_connection

-- The session may have one more context of this type.
abbrev pub Room : Server → (ℕ → ℕ) → ℕ → IoType → Type 0
Room w issued s io_type =
    (cycles io_type + total cycles s w.pending ≤ 1)
    × (linked (w.session s) + keeps io_type + total keeps s w.pending ≤ issued s)

abbrev pub with_session : Server → ℕ → ClientSession → Server
with_session w s c = record w { session = update w.session s c }

pub Handling-put :
    {w : Server} {issued : ℕ → ℕ} {s extra : ℕ} (c : ClientSession) (extra' : ℕ)
    → Handling w issued s extra
    → c.ref_count ≡ total holds s w.pending + issued s + extra'
    → linked c + total keeps s w.pending ≤ issued s
    → Handling (with_session w s c) issued s extra'
Handling-put {w} {issued} {s} c extra' h refs owner = record {
  here = ground (arith, h.here, h.bound);
  others = λ t ne. ground (arith, h.others t ne);
  free = record {
    unused = λ t i. ground (arith, h.free.unused t i, out_ne t i);
    distinct = h.free.distinct;
    bounded = h.free.bounded;
    counted = h.free.counted;
    words = h.free.words;
  };
  out = h.out;
  bound = h.bound;
}
  where
    out_ne : (t : ℕ) → In t w.free_sessions → s ≢ t
    out_ne t i e = h.out (subst (λ k. In k w.free_sessions) (sym e) i)

pub Handling-start :
    {w : Server} {issued : ℕ → ℕ} {s : ℕ} (c : IoContext) (extra : ℕ)
    → c.session ≡ s
    → Room w issued s c.io_type
    → Handling w issued s (extra + 1)
    → Handling (record w { pending = c ∷ w.pending }) issued s extra
Handling-start {w} {issued} {s} c extra e room h = record {
  here = record {
    refs = omega (arith, h.here.refs, total_self holds s c w.pending e);
    once = h.here.once;
    owner = omega (arith, room.1, total_self keeps s c w.pending e);
    cycle = omega (arith, room.0, total_self cycles s c w.pending e);
    known = h.here.known;
  };
  others = λ t ne.
      let ne' : c.session ≢ t = λ q. ne (sym q ∙ e) in
      record {
        refs = omega (arith, (h.others t ne).refs, total_other holds t c w.pending ne');
        once = (h.others t ne).once;
        owner = omega (arith, (h.others t ne).owner, total_other keeps t c w.pending ne');
        cycle = omega (arith, (h.others t ne).cycle, total_other cycles t c w.pending ne');
        known = (h.others t ne).known;
      };
  free = record {
    unused = h.free.unused;
    distinct = h.free.distinct;
    bounded = h.free.bounded;
    counted = h.free.counted;
    words = h.free.words;
  };
  out = h.out;
  bound = h.bound;
}

-- A session has at most two contexts with the kernel and its own reference.
pub few_refs :
    {w : Server} {issued : ℕ → ℕ} (t extra : ℕ)
    → Facts w issued t extra
    → (w.session t).ref_count ≤ 3 + extra
few_refs {w} t extra f = omega (arith, total-holds-le t w.pending, f.refs, f.once, f.owner, f.cycle)

same_session :
    (w : Server) (i : ℕ) (bytes : List ℕ) (c : IoContext) (t : ℕ)
    → (((dequeue i bytes c w).session t).ref_count ≡ (w.session t).ref_count)
      × (linked ((dequeue i bytes c w).session t) ≡ linked (w.session t))
unfolding dequeue
same_session w i bytes c t = ground arith

-- The context that the kernel gives up: a handler starts, with room for another of its kind.
module _ {w : Server} {issued : ℕ → ℕ} (i : ℕ) (bytes : List ℕ) (c : IoContext)
    (v : IsValid w issued) (e : get_elem? w.pending i ≡ some c) where
  taken :
      (k : IoType → ℕ)
      → total k c.session w.pending ≡ k c.io_type + total k c.session (remove_at w.pending i)
  taken k =
      total-remove_at k c.session w.pending i c e
      ∙ total_self k c.session c (remove_at w.pending i) refl

  dequeue_here : Facts (dequeue i bytes c w) issued c.session 1
  unfolding dequeue
  dequeue_here =
      let f : Facts w issued c.session 0 = v.facts c.session in
      let (refs, links) = same_session w i bytes c c.session in
      record {
        refs = omega (arith, refs, f.refs, taken holds);
        once = f.once;
        owner = omega (arith, links, f.owner, taken keeps);
        cycle = omega (arith, f.cycle, taken cycles);
        known = λ p. f.known (omega (arith, refs));
      }

  dequeue_others : (t : ℕ) → t ≢ c.session → Facts (dequeue i bytes c w) issued t 0
  unfolding dequeue
  dequeue_others t ne =
      let f : Facts w issued t 0 = v.facts t in
      let (refs, links) = same_session w i bytes c t in
      let kept : (k : IoType → ℕ) → total k t w.pending ≡ total k t (remove_at w.pending i) = λ k.
        total-remove_at k t w.pending i c e
        ∙ total_other k t c (remove_at w.pending i) (λ q. ne (sym q)) in
      record {
        refs = omega (arith, refs, f.refs, kept holds);
        once = f.once;
        owner = omega (arith, links, f.owner, kept keeps);
        cycle = omega (arith, f.cycle, kept cycles);
        known = λ p. f.known (omega (arith, refs));
      }

  pub dequeue-Handling : Handling (dequeue i bytes c w) issued c.session 1
  unfolding dequeue
  dequeue-Handling = record {
    here = dequeue_here;
    others = dequeue_others;
    free = record {
      unused = λ t j. (same_session w i bytes c t).0 ∙ v.free.unused t j;
      distinct = v.free.distinct;
      bounded = v.free.bounded;
      counted = v.free.counted;
      words = v.free.words;
    };
    out = λ j. omega (arith, v.free.unused c.session j, (v.facts c.session).refs, taken holds);
    bound = (v.facts c.session).known (omega (arith, (v.facts c.session).refs, taken holds));
  }

  pub dequeue-Room : Room (dequeue i bytes c w) issued c.session c.io_type
  unfolding dequeue
  dequeue-Room =
      let f : Facts w issued c.session 0 = v.facts c.session in
      let (refs, links) = same_session w i bytes c c.session in
      (omega (arith, f.cycle, taken cycles), omega (arith, links, f.owner, taken keeps))
