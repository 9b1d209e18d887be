-- ===== src/Session/Flushing.antt =====
-- `FlushSend` and `EchoBack` of Homework6/EduServer_IOCP/Session.cpp and the reference counts.
use gsp.Prelude.{
  ℕ, ◌+◌, ◌%◌, ◌^◌, ◌≤◌, ◌≡◌, refl, inl, inr, Bool, true, false, Option, ◌∷◌, arith, ◌==◌, to_u32,
  Bool-cases, dec_lt, List, [], ◌++◌, ltb, length,
}
use gsp.CircularBuffer
use gsp.CircularBuffer.{CircularBuffer}
use gsp.CircularBuffer.Queue.{store, peek}
use gsp.Session.State.{io_send, dr_sendflush_error, IoContext, Session, Sessions, ◌>>=◌}
use gsp.Session.{
  new_context, delete_io_context, submit, count_send, flush_send, post_send, echo_back,
}
use gsp.Session.Counting.{total, cycles, total_self}
use gsp.Session.References.{
  Handling, with_session, Handling-put, Handling-same, Handling-rest, Handling-start,
  add_ref-Handling, release_ref-Handling,
}
use gsp.Session.Handlers.{Keeps, disconnect_request-Keeps}

-- A send is counted after it is posted, so the two are looked at together.
flush_started :
    {w : Sessions} {issued : ℕ → ℕ} {s extra : ℕ} (disconnect_started : Bool) (len : ℕ)
    (buf : Option ℕ)
    → Handling w issued s extra 0
    → 1 ≤ issued s + extra
    → extra ≤ 1
    → (w.session s).send_pending_count ≡ 0
    → Keeps issued s extra 0 (total cycles s w.pending) (
        (new_context s io_send len buf >>= λ c.
        submit c true >>= λ b. count_send s b disconnect_started)
          w)
unfolding new_context submit count_send
flush_started {w} {issued} {s} {extra} disconnect_started len buf h held le idle =
    let (e, h₁) = add_ref-Handling h held (omega arith) in
    let c : IoContext = record { session = s; io_type = io_send; len = len; buf = buf } in
    let w₁ : Sessions =
      with_session w s (record (w.session s) { ref_count = (w.session s).ref_count + 1 }) in
    let same : (w₁.session s).send_pending_count ≡ 0 = ground (arith, idle) in
    let counted : Session = record (w₁.session s) {
      send_pending_count = ((w₁.session s).send_pending_count + 1) % 2 ^ 32;
    } in
    let h₂ : Handling (with_session w₁ s counted) issued s (extra + 1) 0 =
      Handling-put h₁ counted (extra + 1) 0 h₁.here.refs h₁.here.owner
        (omega (arith, h.here.sent, same, idle)) (omega (arith, same)) (omega (arith, held)) in
    (
      ((w₁.session s).send_pending_count + 1) % 2 ^ 32 == 1,
      record (with_session w₁ s counted) { pending = c ∷ w.pending },
      ground (arith, e),
      Handling-start c extra 0 refl
          (
            omega (arith, h.here.cycle),
            ground (arith, h₁.here.owner),
            refl,
            ground (arith, h.here.sent, same, idle),
          )
          h₂,
      omega (arith, total_self cycles s c w.pending refl),
    )

flush_failed :
    {w : Sessions} {issued : ℕ → ℕ} {s extra : ℕ} (disconnect_started : Bool) (len : ℕ)
    (buf : Option ℕ)
    → Handling w issued s extra 0
    → 1 ≤ issued s + extra
    → extra ≤ 1
    → Keeps issued s extra 0 (total cycles s w.pending) (
        (new_context s io_send len buf >>= λ c.
        submit c false >>= λ b. count_send s b disconnect_started)
          w)
unfolding new_context submit count_send delete_io_context
flush_failed {w} {issued} {s} {extra} disconnect_started len buf h held le =
    let (e, h₁) = add_ref-Handling h held (omega arith) in
    let (e₂, h₂) = release_ref-Handling extra 0 h₁ held in
    let (_, w₃, e₃, h₃, few) =
      disconnect_request-Keeps h₂ le dr_sendflush_error disconnect_started in
    (true, w₃, ground (arith, e, e₂, e₃), h₃, omega (arith, few))

pub flush_send-Keeps :
    {w : Sessions} {issued : ℕ → ℕ} {s extra : ℕ} (started disconnect_started : Bool)
    → Handling w issued s extra 0
    → extra ≤ 1
    → Keeps issued s extra 0 (total cycles s w.pending) (flush_send s started disconnect_started w)
unfolding flush_send
flush_send-Keeps {w} {issued} {s} {extra} started disconnect_started h le =
    elim (Bool-cases (w.session s).connected) [
      | inr gone ↦
          let (_, w', e, h', few) =
            disconnect_request-Keeps h le dr_sendflush_error disconnect_started in
          (true, w', ground (arith, gone, e), h', few)
      | inl live ↦
          let c : Session = w.session s in
          let n : ℕ = CircularBuffer.get_contiguious_bytes c.send_buffer in
          elim (Bool-cases (n == 0)) [
            | inl nothing ↦
                (c.send_pending_count == 0, w, ground (arith, live, nothing), h, omega arith)
            | inr more ↦ elim (dec_lt 0 c.send_pending_count) [
              | yes busy ↦ (false, w, ground (arith, h.here.count, live, more), h, omega arith)
              | no idle ↦
                  let (b, w', e, h', few) =
                    flush_posted started disconnect_started (to_u32 n)
                      (CircularBuffer.get_buffer_start c.send_buffer) h
                      (ground (arith, live, h.here.owner)) le (omega arith) in
                  (b, w', ground (arith, e, live, more, idle), h', few)
            ]
          ]
    ]
  where
    flush_posted :
        {w : Sessions} {issued : ℕ → ℕ} {s extra : ℕ} (started disconnect_started : Bool) (len : ℕ)
        (buf : Option ℕ)
        → Handling w issued s extra 0
        → 1 ≤ issued s + extra
        → extra ≤ 1
        → (w.session s).send_pending_count ≡ 0
        → Keeps issued s extra 0 (total cycles s w.pending) (
            (new_context s io_send len buf >>= λ c.
            submit c started >>= λ b. count_send s b disconnect_started)
              w)
    flush_posted true d len buf h held le idle = flush_started d len buf h held le idle
    flush_posted false d len buf h held le idle = flush_failed d len buf h held le

-- The bytes of a client go back to it.
pub echo_back-Keeps :
    {w : Sessions} {issued : ℕ → ℕ} {s : ℕ}
    → Handling w issued s 1 0
    → Keeps issued s 1 0 (total cycles s w.pending) (echo_back s w)
unfolding echo_back post_send
echo_back-Keeps {w} {issued} {s} h =
    let c : Session = w.session s in
    let len : ℕ = CircularBuffer.get_contiguious_bytes c.recv_buffer in
    let bytes : List ℕ = peek c.recv_buffer in
    let (free, b) = CircularBuffer.get_free_space_size c.send_buffer in
    let c₁ : Session = record c { send_buffer = b } in
    let w₁ : Sessions = with_session w s c₁ in
    let h₁ : Handling w₁ issued s 1 0 = Handling-same h c₁ refl (omega arith) refl in
    let w₂ : Sessions = record w₁ { requests = w₁.requests ++ (s ∷ []) } in
    let h₂ : Handling w₂ issued s 1 0 = Handling-rest w₂.requests w₁.next_pid h₁ in
    let c₃ : Session = record c { send_buffer = store b bytes } in
    let h₃ : Handling (with_session w₂ s c₃) issued s 1 0 =
      Handling-same h₂ c₃ (ground arith) (ground arith) (ground arith) in
    let c₄ : Session = record c₃ { recv_buffer = CircularBuffer.remove c.recv_buffer len } in
    let h₄ : Handling (with_session (with_session w₂ s c₃) s c₄) issued s 1 0 =
      Handling-same h₃ c₄ (ground arith) (ground arith) (ground arith) in
    elim (Bool-cases (len == 0)) [
      | inl empty ↦ (tt, w, ground (arith, empty), h, omega arith)
      | inr some_bytes ↦ elim (Bool-cases c.connected) [
        | inr gone ↦ (tt, w, ground (arith, some_bytes, gone), h, omega arith)
        | inl live ↦ elim (Bool-cases (ltb free (length bytes))) [
          | inl full ↦ (tt, w₁, ground (arith, some_bytes, live, full), h₁, omega arith)
          | inr room ↦ (
            tt,
            with_session (with_session w₂ s c₃) s c₄,
            ground (arith, some_bytes, live, room),
            h₄,
            omega arith,
          )
        ]
      ]
    ]
