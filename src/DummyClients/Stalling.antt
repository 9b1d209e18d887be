-- ===== src/DummyClients/Stalling.antt =====
-- A packet that lies across the two regions of a receive buffer.
use gsp.Prelude.{
  ℕ, ◌+◌, ◌^◌, ◌≤◌, ◌<◌, ◌≡◌, sym, ap, ◌∙◌, inr, Bool, some, List, ◌++◌, arith, length, subst,
  add_u64,
}
use gsp.CircularBuffer.{
  CircularBuffer, get_free_space_size, get_buffer, get_buffer_start, get_contiguious_bytes, commit,
}
use gsp.CircularBuffer.Memory.{copy, window-copy_apart}
use gsp.CircularBuffer.Invariant.{IsValid}
use gsp.CircularBuffer.Queue.{contents, peek, store, contents-store, store-IsValid}
use gsp.DummyClients.State.{DummyClientSession, Clients, M, update}
use gsp.DummyClients.Packets.{Streams, IsLawful, HandlerFunc, on_receive}
use gsp.DummyClients.{recv_completion}
use gsp.DummyClients.Framing.{Incomplete}
use gsp.DummyClients.Receiving.{on_receive_rest}

-- Region B is in use, and region A ends inside a packet.
pub record Stalled (b : CircularBuffer) : Type 0 where
  pub valid : IsValid b
  pub small : b.capacity < 2 ^ 31
  pub both : b.b_pointer ≡ some 0
  pub inside : Incomplete (peek b)

-- The kernel has put received bytes where the receive was posted.
abbrev pub arrived : ℕ → List ℕ → Clients → Clients
arrived s received w =
    let b : CircularBuffer = (w.session s).recv_buffer in
    record w {
      session = update w.session s (record (w.session s) {
        recv_buffer = record b { bytes = copy b.bytes (get_buffer b) received };
      });
    }

same_free : (b : CircularBuffer) → b.b_pointer ≡ some 0 → (get_free_space_size b).1 ≡ b
unfolding get_free_space_size
same_free b e = ground arith

room_in_b :
    (b : CircularBuffer) (n : ℕ)
    → Stalled b
    → n ≤ (get_free_space_size b).0
    → b.b_size + n ≤ b.a_pointer
unfolding get_free_space_size
room_in_b b n st room = ground arith

peek-store :
    (b : CircularBuffer) (received : List ℕ)
    → Stalled b
    → length received ≤ (get_free_space_size b).0
    → peek (store b received) ≡ peek b
unfolding store peek get_buffer commit get_buffer_start get_contiguious_bytes
peek-store b received st room =
    let apart : b.b_size + length received ≤ b.a_pointer = room_in_b b (length received) st room in
    ground (
      arith,
      apart,
      window-copy_apart b.bytes (0 + b.b_size) received b.a_pointer b.a_size
          (inr (omega (arith, apart))),
    )

still_both :
    (b : CircularBuffer) (received : List ℕ)
    → b.b_pointer ≡ some 0
    → ((store b received).b_pointer ≡ some 0) × ((store b received).capacity ≡ b.capacity)
unfolding store commit
still_both b received e = ground arith

store-Stalled :
    (b : CircularBuffer) (received : List ℕ)
    → Stalled b
    → length received ≤ (get_free_space_size b).0
    → Stalled (store b received) × (contents (store b received) ≡ contents b ++ received)
store-Stalled b received st room =
    let now : (get_free_space_size b).1 ≡ b = same_free b st.both in
    let (both, capacity) = still_both b received st.both in
    (
      record {
        valid =
            subst (λ c. IsValid (store c received)) now (store-IsValid b received st.valid room);
        small = omega (arith, capacity, st.small);
        both = both;
        inside = subst Incomplete (sym (peek-store b received st room)) st.inside;
      },
      ap (λ c. contents (store c received)) (sym now) ∙ contents-store b received st.valid room,
    )

-- `RecvCompletion`, when `OnReceive` finds nothing to handle.
completion_result :
    (on : M (Unit {0})) (s : ℕ) (received : List ℕ) (w : Clients)
    → ((w₁ : Clients)
        → (w₁.session s).recv_buffer ≡ store (w.session s).recv_buffer received
        → on w₁ ≡ some (tt, w₁))
    → (w' : Clients) × (recv_completion on s (length received) (arrived s received w)
        ≡ some (tt, w'))
      × ((w'.session s).recv_buffer ≡ store (w.session s).recv_buffer received)
unfolding recv_completion store
completion_result on s received w idle =
    let stored : CircularBuffer = store (w.session s).recv_buffer received in
    let done : DummyClientSession = record (w.session s) { recv_buffer = stored } in
    let w₀ : Clients = arrived s received w in
    let w₁ : Clients = record w₀ { session = update w₀.session s done } in
    let idle₁ : on w₁ ≡ some (tt, w₁) = idle w₁ (ground arith) in
    (
      record w₁ {
        session = update w₁.session s (record (w₁.session s) {
          recv_total = add_u64 (w₁.session s).recv_total (length received);
        });
      },
      ground (arith, idle₁),
      ground arith,
    )

-- Once region B of the receive buffer is in use while region A ends inside a packet, no packet is
-- handled any more: whatever comes, as long as it fits, is only put behind, and it stays so.
pub recv_completion-Stalled :
    {S : Streams} (lawful : IsLawful S) (table : ℕ → HandlerFunc S) (started : Bool) (s : ℕ)
    (received : List ℕ) (w : Clients)
    → Stalled (w.session s).recv_buffer
    → length received ≤ (get_free_space_size (w.session s).recv_buffer).0
    → (w' : Clients) × (recv_completion
          (on_receive S table started s)
          s
          (length received)
          (arrived s received w)
        ≡ some (tt, w'))
      × (contents (w'.session s).recv_buffer ≡ contents (w.session s).recv_buffer ++ received)
      × Stalled (w'.session s).recv_buffer
recv_completion-Stalled {S} lawful table started s received w st room =
    let b : CircularBuffer = (w.session s).recv_buffer in
    let (st', grown) = store-Stalled b received st room in
    let (w', e, now) = completion_result (on_receive S table started s) s received w λ w₁ q.
      let st₁ : Stalled (w₁.session s).recv_buffer = subst Stalled (sym q) st' in
      on_receive_rest lawful table started s w₁ st₁.valid st₁.small st₁.inside in
    (w', e, ap contents now ∙ grown, subst Stalled (sym now) st')
