-- ===== src/DummyClients/Flushing.antt =====
-- `FlushSend` and the reference counts.
use gsp.Prelude.{
  ℕ, ◌+◌, ◌%◌, ◌^◌, ◌≤◌, ◌≡◌, refl, ap, inl, inr, Bool, true, false, Option, ◌∷◌, arith, ◌==◌,
  to_u32, Bool-cases, dec_lt,
}
use gsp.CircularBuffer
use gsp.CircularBuffer.{CircularBuffer}
use gsp.DummyClients.State.{
  io_send, dr_sendflush_error, IoContext, DummyClientSession, Clients, ◌>>=◌,
}
use gsp.DummyClients.{new_context, delete_io_context, submit, count_send, flush_send}
use gsp.DummyClients.Counting.{total, cycles, total_self}
use gsp.DummyClients.References.{
  Handling, with_session, Handling-put, Handling-start, add_ref-Handling, release_ref-Handling,
}
use gsp.DummyClients.Handlers.{Keeps, disconnect_request-Keeps}

-- A send is counted after it is posted, so the two are looked at together.
flush_started :
    {w : Clients} {issued : ℕ → ℕ} {s extra : ℕ} (disconnect_started : Bool) (len : ℕ)
    (buf : Option ℕ)
    → Handling w issued s extra 0
    → extra ≤ 1
    → (w.session s).send_pending_count ≡ 0
    → Keeps issued s extra 0 (total cycles s w.pending) (
        (new_context s io_send len buf >>= λ c.
        submit c true >>= λ b. count_send s b disconnect_started)
          w)
unfolding new_context submit count_send
flush_started {w} {issued} {s} {extra} disconnect_started len buf h le idle =
    let (e, h₁) = add_ref-Handling h (omega arith) in
    let c : IoContext = record { session = s; io_type = io_send; len = len; buf = buf } in
    let w₁ : Clients =
      with_session w s (record (w.session s) { ref_count = (w.session s).ref_count + 1 }) in
    let same : (w₁.session s).send_pending_count ≡ 0 = ground (arith, idle) in
    let counted : DummyClientSession = record (w₁.session s) {
      send_pending_count = ((w₁.session s).send_pending_count + 1) % 2 ^ 32;
    } in
    let h₂ : Handling (with_session w₁ s counted) issued s (extra + 1) 0 =
      Handling-put h₁ counted (extra + 1) 0 h₁.here.refs h₁.here.owner
        (omega (arith, h.here.sent, same, idle)) (omega (arith, same)) in
    (
      ((w₁.session s).send_pending_count + 1) % 2 ^ 32 == 1,
      record (with_session w₁ s counted) { pending = c ∷ w.pending },
      ground (arith, e),
      Handling-start c extra 0 refl
          (
            omega (arith, h.here.cycle),
            ground (arith, h₁.here.owner),
            ground (arith, h.here.sent, same, idle),
          )
          h₂,
      omega (arith, total_self cycles s c w.pending refl),
    )

flush_failed :
    {w : Clients} {issued : ℕ → ℕ} {s extra : ℕ} (disconnect_started : Bool) (len : ℕ)
    (buf : Option ℕ)
    → Handling w issued s extra 0
    → extra ≤ 1
    → Keeps issued s extra 0 (total cycles s w.pending) (
        (new_context s io_send len buf >>= λ c.
        submit c false >>= λ b. count_send s b disconnect_started)
          w)
unfolding new_context submit count_send delete_io_context
flush_failed {w} {issued} {s} {extra} disconnect_started len buf h le =
    let (e, h₁) = add_ref-Handling h (omega arith) in
    let (w₂, e₂, h₂, same, _) = release_ref-Handling extra 0 h₁ in
    let (_, w₃, e₃, h₃, few) =
      disconnect_request-Keeps h₂ le dr_sendflush_error disconnect_started in
    (true, w₃, ground (arith, e, e₂, e₃), h₃, omega (arith, few, ap (total cycles s) same))

pub flush_send-Keeps :
    {w : Clients} {issued : ℕ → ℕ} {s extra : ℕ} (started disconnect_started : Bool)
    → Handling w issued s extra 0
    → extra ≤ 1
    → Keeps issued s extra 0 (total cycles s w.pending) (flush_send s started disconnect_started w)
unfolding flush_send
flush_send-Keeps {w} {issued} {s} {extra} started disconnect_started h le =
    elim (Bool-cases (w.session s).connected) [
      | inr gone ↦
          let (_, w', e, h', few) =
            disconnect_request-Keeps h le dr_sendflush_error disconnect_started in
          (true, w', ground (arith, gone, e), h', few)
      | inl live ↦
          let c : DummyClientSession = w.session s in
          let n : ℕ = CircularBuffer.get_contiguious_bytes c.send_buffer in
          elim (Bool-cases (n == 0)) [
            | inl nothing ↦
                (c.send_pending_count == 0, w, ground (arith, live, nothing), h, omega arith)
            | inr more ↦ elim (dec_lt 0 c.send_pending_count) [
              | yes busy ↦ (false, w, ground (arith, h.here.count, live, more), h, omega arith)
              | no idle ↦
                  let (b, w', e, h', few) =
                    flush_posted started disconnect_started (to_u32 n)
                      (CircularBuffer.get_buffer_start c.send_buffer) h le (omega arith) in
                  (b, w', ground (arith, e, live, more, idle), h', few)
            ]
          ]
    ]
  where
    flush_posted :
        {w : Clients} {issued : ℕ → ℕ} {s extra : ℕ} (started disconnect_started : Bool) (len : ℕ)
        (buf : Option ℕ)
        → Handling w issued s extra 0
        → extra ≤ 1
        → (w.session s).send_pending_count ≡ 0
        → Keeps issued s extra 0 (total cycles s w.pending) (
            (new_context s io_send len buf >>= λ c.
            submit c started >>= λ b. count_send s b disconnect_started)
              w)
    flush_posted true d len buf h le idle = flush_started d len buf h le idle
    flush_posted false d len buf h le idle = flush_failed d len buf h le
