-- ===== src/DummyClients/Handlers.antt =====
-- The operations of a client's session and the reference counts.
use gsp.Prelude.{
  ℕ, ◌+◌, ◌-◌, ◌%◌, ◌^◌, ◌≤◌, ◌≡◌, refl, ap, inl, inr, Bool, true, false, Option, none, some, ◌∷◌,
  arith, ◌==◌, to_u32, add_u64, Bool-cases,
}
use gsp.CircularBuffer
use gsp.CircularBuffer.{CircularBuffer}
use gsp.DummyClients.State.{
  IoType, io_recv, io_recv_zero, io_disconnect, DisconnectReason, IoContext, DummyClientSession,
  Clients, M, ◌>>=◌,
}
use gsp.DummyClients.{
  new_context, delete_io_context, submit, disconnect_request, pre_recv, post_recv, send_completion,
  recv_completion,
}
use gsp.DummyClients.Counting.{total, cycles, total_self}
use gsp.DummyClients.References.{
  Handling, Room, with_session, Handling-put, Handling-same, Handling-start, add_ref-Handling,
  release_ref-Handling,
}

-- What an action leaves behind, with the counts in order, and at most `n` contexts of the cycle.
abbrev pub Keeps : {A : Type 0} → (ℕ → ℕ) → ℕ → ℕ → ℕ → ℕ → Option (A × Clients) → Type 0
Keeps {A} issued s extra sending n o =
    (a : A) × (w : Clients) × (o ≡ some (a, w))
    × Handling w issued s extra sending
    × (total cycles s w.pending ≤ n)

-- A context for an operation: with the kernel if the operation started, and deleted if not.
pub post-Handling :
    {w : Clients} {issued : ℕ → ℕ} {s : ℕ} (extra sending : ℕ) (io_type : IoType) (len : ℕ)
    (buf : Option ℕ) (started : Bool)
    → Handling w issued s extra sending
    → extra ≤ 1
    → Room w issued s sending io_type
    → (w' : Clients) × ((new_context s io_type len buf >>= λ c. submit c started) w
        ≡ some (started, w'))
      × Handling w' issued s extra sending
      × (total cycles s w'.pending ≤ total cycles s w.pending + cycles io_type)
unfolding new_context submit delete_io_context
post-Handling {w} {issued} {s} extra sending io_type len buf true h le room =
    let (e, h') = add_ref-Handling h (omega arith) in
    let c : IoContext = record { session = s; io_type = io_type; len = len; buf = buf } in
    let w₁ : Clients =
      with_session w s (record (w.session s) { ref_count = (w.session s).ref_count + 1 }) in
    (
      record w₁ { pending = c ∷ w.pending },
      ground (arith, e),
      Handling-start c extra sending refl (room.0, ground (arith, room.1), ground (arith, room.2))
          h',
      omega (arith, total_self cycles s c w.pending refl),
    )
post-Handling {w} {issued} {s} extra sending io_type len buf false h le room =
    let (e, h') = add_ref-Handling h (omega arith) in
    let (w₂, e', h'', same, _) = release_ref-Handling extra sending h' in
    (w₂, ground (arith, e, e'), h'', omega (arith, ap (total cycles s) same))

module _ {w : Clients} {issued : ℕ → ℕ} {s extra sending : ℕ}
    (h : Handling w issued s extra sending) (le : extra ≤ 1) where
  pub disconnect_request-Keeps :
      (dr : DisconnectReason) (started : Bool)
      → Keeps issued s extra sending (total cycles s w.pending) (disconnect_request s dr started w)
  unfolding disconnect_request
  disconnect_request-Keeps dr started =
      let c : DummyClientSession = record (w.session s) { connected = false } in
      let h' : Handling (with_session w s c) issued s extra sending =
        Handling-same h c refl (omega arith) refl in
      elim (Bool-cases (w.session s).connected) [
        | inr gone ↦ (tt, with_session w s c, ground arith, h', omega arith)
        | inl live ↦
            let (w', e, h'', few) = post-Handling extra sending io_disconnect 0 none started h' le (
              omega (arith, h.here.cycle),
              ground (arith, h.here.owner),
              ground (arith, h.here.sent),
            ) in
            (tt, w', ground (arith, e), h'', omega (arith, few))
      ]

  pub pre_recv-Keeps :
      (started : Bool)
      → total cycles s w.pending ≡ 0
      → Keeps issued s extra sending 1 (pre_recv s started w)
  unfolding pre_recv
  pre_recv-Keeps started none_posted = elim (Bool-cases (w.session s).connected) [
    | inr gone ↦ (false, w, ground arith, h, omega arith)
    | inl live ↦
        let (w', e, h', few) =
          post-Handling extra sending io_recv_zero 0 none started h le
            (omega arith, ground (arith, h.here.owner), ground (arith, h.here.sent)) in
        (started, w', ground (arith, e), h', omega (arith, few))
  ]

  pub post_recv-Keeps :
      (started : Bool)
      → total cycles s w.pending ≡ 0
      → Keeps issued s extra sending 1 (post_recv s started w)
  unfolding post_recv
  post_recv-Keeps started none_posted = elim (Bool-cases (w.session s).connected) [
    | inr gone ↦ (false, w, ground arith, h, omega arith)
    | inl live ↦
        let c : DummyClientSession = w.session s in
        let (n, b) = CircularBuffer.get_free_space_size c.recv_buffer in
        let w₁ : Clients = with_session w s (record c { recv_buffer = b }) in
        let h₁ : Handling w₁ issued s extra sending =
          Handling-same h (record c { recv_buffer = b }) refl (omega arith) refl in
        elim (Bool-cases (n == 0)) [
          | inl full ↦ (false, w₁, ground arith, h₁, omega arith)
          | inr more ↦
              let (w', e, h', few) =
                post-Handling extra sending io_recv (to_u32 n) (some (CircularBuffer.get_buffer b))
                  started h₁ le
                  (omega arith, ground (arith, h.here.owner), ground (arith, h.here.sent)) in
              (started, w', ground (arith, e), h', omega (arith, few))
        ]
  ]

-- A completed send is counted down.
pub send_completion-Keeps :
    {w : Clients} {issued : ℕ → ℕ} {s : ℕ} (transferred : ℕ)
    → Handling w issued s 1 1
    → Keeps issued s 1 0 (total cycles s w.pending) (send_completion s transferred w)
unfolding send_completion
send_completion-Keeps {w} {issued} {s} transferred h =
    let c : DummyClientSession = record (w.session s) {
      send_buffer = CircularBuffer.remove (w.session s).send_buffer transferred;
      send_pending_count = ((w.session s).send_pending_count + (2 ^ 32 - 1)) % 2 ^ 32;
      send_total = add_u64 (w.session s).send_total transferred;
    } in
    (
      tt,
      with_session w s c,
      refl,
      Handling-put h c 1 0 h.here.refs h.here.owner (omega (arith, h.here.sent, h.here.count))
          (omega (arith, h.here.sent, h.here.count)),
      omega arith,
    )

-- An action on a session that keeps the counts, whatever state it is run in.
abbrev pub Careful : ℕ → M (Unit {0}) → Type 0
Careful s m =
    (w : Clients) (issued : ℕ → ℕ)
    → Handling w issued s 1 0
    → Keeps issued s 1 0 (total cycles s w.pending) (m w)

-- The action on a session between the two parts of `RecvCompletion` is run after the commit.
pub recv_completion-Keeps :
    {w : Clients} {issued : ℕ → ℕ} {s : ℕ} (on_receive : M (Unit {0})) (transferred : ℕ)
    → ((w₁ : Clients)
        → Handling w₁ issued s 1 0
        → (w₁.session s).recv_buffer ≡ CircularBuffer.commit (w.session s).recv_buffer transferred
        → Keeps issued s 1 0 (total cycles s w₁.pending) (on_receive w₁))
    → Handling w issued s 1 0
    → Keeps issued s 1 0 (total cycles s w.pending) (recv_completion on_receive s transferred w)
unfolding recv_completion
recv_completion-Keeps {w} {issued} {s} on_receive transferred received h =
    let c : DummyClientSession = record (w.session s) {
      recv_buffer = CircularBuffer.commit (w.session s).recv_buffer transferred;
    } in
    let (_, w₁, e, h₁, few) =
      received (with_session w s c) (Handling-same h c refl (omega arith) refl) (ground arith) in
    let d : DummyClientSession = record (w₁.session s) {
      recv_total = add_u64 (w₁.session s).recv_total transferred;
    } in
    (tt, with_session w₁ s d, ground (arith, e), Handling-same h₁ d refl (omega arith) refl, few)
