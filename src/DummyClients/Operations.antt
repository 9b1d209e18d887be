-- ===== src/DummyClients/Operations.antt =====
-- Requests, the completions of a connect and a disconnect, and the reference counts.
use gsp.Prelude.{
  ℕ, ◌+◌, ◌%◌, ◌^◌, ◌≡◌, refl, ap, inl, inr, Bool, true, false, ◌&&◌, [], ◌∷◌, ◌++◌, arith,
  Bool-cases, dec_lt,
}
use gsp.CircularBuffer
use gsp.CircularBuffer.{CircularBuffer}
use gsp.DummyClients.State.{
  io_disconnect, io_connect, DummyClientSession, Clients, header_size, update,
}
use gsp.DummyClients.{disconnect_completion, increase_client_session}
use gsp.DummyClients.Packets.{Messages, send_request, login}
use gsp.DummyClients.Sending.{queued}
use gsp.DummyClients.Connect.{Setup, connect_completion}
use gsp.DummyClients.Counting.{total, cycles}
use gsp.DummyClients.References.{
  Handling, Room, with_session, Handling-put, Handling-same, release_ref-Handling,
}
use gsp.DummyClients.Handlers.{Keeps, pre_recv-Keeps}

module _ {w : Clients} {issued : ℕ → ℕ} {s extra sending : ℕ}
    (h : Handling w issued s extra sending) where
  -- What the counts do not speak of is changed.
  pub Handling-frame :
      (w' : Clients)
      → w'.session ≡ w.session
      → w'.pending ≡ w.pending
      → Handling w' issued s extra sending
  Handling-frame w' sessions pending = record {
    here = ground (arith, h.here, ap (λ f. f s) sessions, pending);
    others = λ t ne. ground (arith, h.others t ne, ap (λ f. f t) sessions, pending);
  }

-- Nothing is left of a send that is not counted down.
pub Handling-drop :
    {w : Clients} {issued : ℕ → ℕ} {s extra sending : ℕ}
    → Handling w issued s extra sending
    → Handling w issued s extra 0
Handling-drop h = record {
  here = record {
    refs = h.here.refs;
    once = h.here.once;
    owner = h.here.owner;
    cycle = h.here.cycle;
    sent = omega (arith, h.here.sent);
    count = h.here.count;
  };
  others = h.others;
}

pub send_request-Keeps :
    {w : Clients} {issued : ℕ → ℕ} {s extra sending : ℕ} (P : Messages) (packet_type : ℕ)
    (m : P.Message)
    → Handling w issued s extra sending
    → Keeps issued s extra sending (total cycles s w.pending) (send_request P s packet_type m w)
unfolding send_request
send_request-Keeps {w} {issued} {s} {extra} {sending} P packet_type m h =
    let c : DummyClientSession = w.session s in
    let (free, b) = CircularBuffer.get_free_space_size c.send_buffer in
    let w₁ : Clients = with_session w s (record c { send_buffer = b }) in
    let h₁ : Handling w₁ issued s extra sending =
      Handling-same h (record c { send_buffer = b }) refl (omega arith) refl in
    let w₂ : Clients = record w₁ { requests = w.requests ++ (s ∷ []) } in
    let d : DummyClientSession = record c { send_buffer = queued P b packet_type m } in
    elim (Bool-cases c.connected) [
      | inr gone ↦ (false, w, ground (arith, gone), h, omega arith)
      | inl live ↦ elim (dec_lt free (P.byte_size m + header_size)) [
        | yes full ↦ (false, w₁, ground (arith, live, full), h₁, omega arith)
        | no fits ↦ (
          true,
          with_session w₂ s d,
          ground (arith, live, fits),
          Handling-same (Handling-frame h₁ w₂ refl refl) d (ground arith) (ground arith)
              (ground arith),
          omega arith,
        )
      ]
    ]

module _ {w : Clients} {issued : ℕ → ℕ} {s : ℕ} (h : Handling w issued s 1 0) where
  -- The assertion that the session was not connected holds, since its connect was still pending.
  pub connect_completion-Keeps :
      (P : Messages) (setup : Setup) (started : Bool) (m : P.Message)
      → Room w issued s 0 io_connect
      → (setup.no_delay_set && setup.receive_buffer_set) ≡ true
      → Keeps issued s 1 0 1 (connect_completion P s setup started m w)
  unfolding connect_completion increase_client_session login
  connect_completion-Keeps P setup started m room set =
      let c : DummyClientSession = record (w.session s) { connected = true } in
      let w₁ : Clients = with_session w s c in
      let fresh : (w.session s).connected ≡ false = ground (arith, room.1, h.here.once) in
      let h₁ : Handling w₁ issued s 1 0 =
        Handling-put h c 1 0 h.here.refs (omega (arith, room.1)) h.here.sent h.here.count in
      elim (Bool-cases setup.context_updated) [
        | inr failed ↦ (tt, w, ground (arith, failed), h, h.here.cycle)
        | inl updated ↦
            let (posted, w₂, e, h₂, few) =
              pre_recv-Keeps h₁ (omega arith) started (omega (arith, room.0)) in
            elim (Bool-cases posted) [
              | inr lost ↦
                  let d : DummyClientSession = record (w₂.session s) { connected = false } in
                  (
                    tt,
                    with_session w₂ s d,
                    ground (arith, updated, set, fresh, e, lost),
                    Handling-same h₂ d refl (omega arith) refl,
                    few,
                  )
              | inl on ↦
                  let w₃ : Clients = record w₂ {
                    current_connect_count = (w₂.current_connect_count + 1) % 2 ^ 32;
                  } in
                  let (_, w₄, e', h₄, few') =
                    send_request-Keeps P 1 m (Handling-frame h₂ w₃ refl refl) in
                  (
                    tt,
                    w₄,
                    ground (arith, updated, set, fresh, e, on, e'),
                    h₄,
                    omega (arith, few, few'),
                  )
            ]
      ]

  -- The session's own reference is given up.
  pub disconnect_completion-Keeps :
      Room w issued s 0 io_disconnect
      → Keeps (update issued s 0) s 1 0 1 (disconnect_completion s w)
  unfolding disconnect_completion
  disconnect_completion-Keeps room =
      let retired : Handling w (update issued s 0) s 2 0 = record {
        here = ground (arith, h.here, room.1);
        others = λ t ne. ground (arith, h.others t ne);
      } in
      let (w', e, h', same, _) = release_ref-Handling 1 0 retired in
      (tt, w', e, h', omega (arith, room.0, ap (total cycles s) same, h.here.cycle))
