-- ===== src/DummyClients/Completing.antt =====
-- The completion of an operation of a client: the kernel gives up its context, and a handler
-- starts.
use gsp.Prelude.{ℕ, ◌+◌, ◌≡◌, ◌≢◌, refl, sym, none, some, List, arith, get_elem?}
use gsp.CircularBuffer.{CircularBuffer}
use gsp.CircularBuffer.Memory.{copy}
use gsp.DummyClients.State.{IoType, io_recv, IoContext, Clients, update}
use gsp.DummyClients.Counting.{
  total, holds, keeps, cycles, sends, remove_at, total-remove_at, weight_self, weight_other,
}
use gsp.DummyClients.References.{Facts, IsValid, Handling, Room, linked}

-- The received bytes, where the context says.
abbrev pub received : IoContext → List ℕ → CircularBuffer → CircularBuffer
received c bytes b = elim c.io_type [
  | io_recv ↦ elim c.buf [ none ↦ b | some p ↦ record b { bytes = copy b.bytes p bytes } ]
  | _ ↦ b
]

-- The kernel gives up the context at position `i` of its own, after it has put the received bytes
-- where the context says.
unfoldable pub dequeue : ℕ → List ℕ → IoContext → Clients → Clients
dequeue i bytes c w = record w {
  pending = remove_at w.pending i;
  session = update w.session c.session (record (w.session c.session) {
    recv_buffer = received c bytes (w.session c.session).recv_buffer;
  });
}

same_session :
    (w : Clients) (i : ℕ) (bytes : List ℕ) (c : IoContext) (t : ℕ)
    → (((dequeue i bytes c w).session t).ref_count ≡ (w.session t).ref_count)
      × (linked ((dequeue i bytes c w).session t) ≡ linked (w.session t))
      × (((dequeue i bytes c w).session t).send_pending_count ≡ (w.session t).send_pending_count)
unfolding dequeue
same_session w i bytes c t = ground arith

-- The context that the kernel gives up: a handler starts, with room for another of its kind.
module _ {w : Clients} {issued : ℕ → ℕ} (i : ℕ) (bytes : List ℕ) (c : IoContext)
    (v : IsValid w issued) (e : get_elem? w.pending i ≡ some c) where
  taken :
      (k : IoType → ℕ)
      → total k c.session w.pending ≡ k c.io_type + total k c.session (remove_at w.pending i)
  taken k =
      omega (arith, total-remove_at k c.session w.pending i c e, weight_self k c.session c refl)

  kept :
      (k : IoType → ℕ) (t : ℕ)
      → c.session ≢ t
      → total k t w.pending ≡ total k t (remove_at w.pending i)
  kept k t ne = omega (arith, total-remove_at k t w.pending i c e, weight_other k t c ne)

  pub dequeue-Handling : Handling (dequeue i bytes c w) issued c.session 1 (sends c.io_type)
  unfolding dequeue
  dequeue-Handling = record {
    here =
        let f : Facts w issued c.session 0 0 = v c.session in
        let (refs, links, count) = same_session w i bytes c c.session in
        record {
          refs = omega (arith, refs, f.refs, taken holds);
          once = f.once;
          owner = omega (arith, links, f.owner, taken keeps);
          cycle = omega (arith, f.cycle, taken cycles);
          sent = omega (arith, f.sent, count, taken sends);
          count = omega (arith, f.count, count);
        };
    others = λ t ne.
        let f : Facts w issued t 0 0 = v t in
        let (refs, links, count) = same_session w i bytes c t in
        let ne' : c.session ≢ t = λ q. ne (sym q) in
        record {
          refs = omega (arith, refs, f.refs, kept holds t ne');
          once = f.once;
          owner = omega (arith, links, f.owner, kept keeps t ne');
          cycle = omega (arith, f.cycle, kept cycles t ne');
          sent = omega (arith, f.sent, count, kept sends t ne');
          count = omega (arith, f.count, count);
        };
  }

  pub dequeue-Room : Room (dequeue i bytes c w) issued c.session 0 c.io_type
  unfolding dequeue
  dequeue-Room =
      let f : Facts w issued c.session 0 0 = v c.session in
      let (refs, links, count) = same_session w i bytes c c.session in
      (
        omega (arith, f.cycle, taken cycles),
        omega (arith, links, f.owner, taken keeps),
        omega (arith, f.sent, count, taken sends),
      )
