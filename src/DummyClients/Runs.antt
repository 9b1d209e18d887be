-- ===== src/DummyClients/Runs.antt =====
-- Whole runs of the dummy clients: `PrepareClientSessions` and `ConnectSessions`, and then any
-- sequence of rounds of the workers, requests, flushes and calls of `DisconnectSessions`, the
-- answers of the kernel being arbitrary.
use mathlib.Core.Option.{some-injective}
use gsp.Prelude.{
  ℕ, ◌+◌, ◌^◌, ◌≤◌, ◌<◌, ◌≡◌, refl, sym, ◌∙◌, ap, subst, inl, inr, Bool, true, false, ◌&&◌, Option,
  some, List, [], ◌∷◌, arith, Bool-cases, get_elem?,
}
use gsp.CircularBuffer
use gsp.CircularBuffer.{CircularBuffer}
use gsp.CircularBuffer.Memory.{Bytes}
use gsp.DummyClients.State.{io_recv, dr_active, thread_main, IoContext, Clients, M, ◌>>=◌}
use gsp.DummyClients.{flush_send}
use gsp.DummyClients.Packets.{Streams, IsLawful, Messages, on_receive, send_request}
use gsp.DummyClients.Connect.{
  prepare_session, prepare_client_sessions, connect_sessions, disconnect_each, disconnect_sessions,
}
use gsp.DummyClients.Worker.{Completion, Answers, do_iocp_job}
use gsp.DummyClients.Counting.{total, holds, keeps, cycles, sends}
use gsp.DummyClients.References.{IsValid, linked, IsValid-Handling, Handling-done}
use gsp.DummyClients.Handlers.{disconnect_request-Keeps}
use gsp.DummyClients.Flushing.{flush_send-Keeps}
use gsp.DummyClients.Handling.{client_table, client_table-Careful, on_receive-Keeps}
use gsp.DummyClients.Jobs.{do_iocp_job-Done}
use gsp.DummyClients.Operations.{send_request-Keeps}
use gsp.DummyClients.Completing.{dequeue, dequeue-Handling, dequeue-Room}
use gsp.DummyClients.Starting.{no_clients, first_issued, start-IsValid}

disconnect_each-IsValid :
    (started : ℕ → Bool) (ss : List ℕ) (w : Clients) (issued : ℕ → ℕ)
    → IsValid w issued
    → (w' : Clients) × (disconnect_each started ss w ≡ some (tt, w')) × IsValid w' issued
unfolding disconnect_each
disconnect_each-IsValid started [] w issued v = (w, refl, v)
disconnect_each-IsValid started (s ∷ ss) w issued v = elim (Bool-cases (w.session s).connected) [
  | inl live ↦
      let (_, w₁, e, h, _) =
        disconnect_request-Keeps (IsValid-Handling s v) (omega arith) dr_active (started s) in
      let (w', e', v') = disconnect_each-IsValid started ss w₁ issued (Handling-done h) in
      (w', ground (arith, live, e, e'), v')
  | inr gone ↦
      let (w', e', v') = disconnect_each-IsValid started ss w issued v in
      (w', ground (arith, gone, e'), v')
]

-- A kernel receives no more bytes than it was given room for; here, no more than an `int` counts.
abbrev pub Fits : IoContext → Completion → Clients → Type 0
Fits c q w =
    c.io_type ≡ io_recv
    → CircularBuffer.get_contiguious_bytes
        (CircularBuffer.commit (w.session c.session).recv_buffer q.transferred)
      < 2 ^ 31

-- The calls of setsockopt whose failure the code asserts against succeed.
abbrev pub SetsOptions : Answers → Type 0
SetsOptions k = (k.setup.no_delay_set && k.setup.receive_buffer_set) ≡ true

module _ {S : Streams} (lawful : IsLawful S) (parse : Bytes → S.Stream → Bool) (P : Messages) where
  -- `DoIocpJob` of the program, with its table of handlers; `started` is the answer of DisconnectEx
  -- to a handler.
  abbrev pub job : P.Message → Bool → IoContext → Completion → Answers → M Bool
  job m started c q k =
      do_iocp_job P m (on_receive S (client_table S parse started) started) (some c) q k

  pub data Reachable : Clients → Type 0 where
    connecting :
        {w : Clients} (max_connection : ℕ) (storage : ℕ → Bytes × Bytes)
        (prepared : ℕ → Bool × Bool) (started : ℕ → Bool)
        → ((t : ℕ) → t < max_connection → prepare_session (prepared t).0 (prepared t).1 ≡ true)
        → (prepare_client_sessions thread_main max_connection storage prepared >>= λ _.
              connect_sessions started)
            (no_clients storage)
          ≡ some (true, w)
        → Reachable w
    working :
        {w w' : Clients} (i : ℕ) (bytes : List ℕ) (m : P.Message) (started : Bool) (c : IoContext)
        (q : Completion) (k : Answers)
        → Reachable w
        → get_elem? w.pending i ≡ some c
        → SetsOptions k
        → q.stop_now ≡ false
        → Fits c q (dequeue i bytes c w)
        → job m started c q k (dequeue i bytes c w) ≡ some (true, w')
        → Reachable w'
    requesting :
        {w w' : Clients} (s packet_type : ℕ) (m : P.Message) (b : Bool)
        → Reachable w
        → send_request P s packet_type m w ≡ some (b, w')
        → Reachable w'
    flushing :
        {w w' : Clients} (s : ℕ) (started disconnect_started b : Bool)
        → Reachable w
        → flush_send s started disconnect_started w ≡ some (b, w')
        → Reachable w'
    disconnecting :
        {w w' : Clients} (started : ℕ → Bool)
        → Reachable w
        → disconnect_sessions started w ≡ some (tt, w')
        → Reachable w'

  job-IsValid :
      (w : Clients) (issued : ℕ → ℕ) (i : ℕ) (bytes : List ℕ) (m : P.Message) (started : Bool)
      (c : IoContext) (q : Completion) (k : Answers)
      → IsValid w issued
      → get_elem? w.pending i ≡ some c
      → SetsOptions k
      → q.stop_now ≡ false
      → Fits c q (dequeue i bytes c w)
      → (w' : Clients) × (issued' : ℕ → ℕ) × (job m started c q k (dequeue i bytes c w)
          ≡ some (true, w'))
        × IsValid w' issued'
  job-IsValid w issued i bytes m started c q k v e set go fits =
      do_iocp_job-Done P m (on_receive S (client_table S parse started) started)
        (dequeue i bytes c w) issued c q k (dequeue-Handling i bytes c v e)
        (dequeue-Room i bytes c v e) set go
        λ recv w₁ h same.
          on_receive-Keeps lawful (client_table S parse started) started c.session
            (λ packet_type header st.
              client_table-Careful S parse started c.session packet_type header st)
            w₁ issued
            (subst (λ b. CircularBuffer.get_contiguious_bytes b < 2 ^ 31) (sym same) (fits recv)) h

  same_state :
      {A : Type 0} {o : Option (A × Clients)} {a b : A} {w w' : Clients}
      → o ≡ some (a, w)
      → o ≡ some (b, w')
      → w ≡ w'
  same_state e e' = ap (λ p. p.1) (some-injective _ _ (sym e ∙ e'))

  Reachable-IsValid : {w : Clients} → Reachable w → (issued : ℕ → ℕ) × IsValid w issued
  unfolding disconnect_sessions
  Reachable-IsValid (connecting max_connection storage prepared started ok e) =
      let (w, e', v) = start-IsValid max_connection storage prepared started ok in
      (
        first_issued max_connection,
        subst (λ x. IsValid x (first_issued max_connection)) (same_state e' e) v,
      )
  Reachable-IsValid (working i bytes m started c q k r e set go fits done) =
      let (issued, v) = Reachable-IsValid r in
      let (w', issued', e', v') = job-IsValid _ issued i bytes m started c q k v e set go fits in
      (issued', subst (λ x. IsValid x issued') (same_state e' done) v')
  Reachable-IsValid (requesting s packet_type m b r done) =
      let (issued, v) = Reachable-IsValid r in
      let (b', w', e', h, _) = send_request-Keeps P packet_type m (IsValid-Handling s v) in
      (issued, subst (λ x. IsValid x issued) (same_state e' done) (Handling-done h))
  Reachable-IsValid (flushing s started disconnect_started b r done) =
      let (issued, v) = Reachable-IsValid r in
      let (b', w', e', h, _) =
        flush_send-Keeps started disconnect_started (IsValid-Handling s v) (omega arith) in
      (issued, subst (λ x. IsValid x issued) (same_state e' done) (Handling-done h))
  Reachable-IsValid (disconnecting {w} started r done) =
      let (issued, v) = Reachable-IsValid r in
      let (w', e', v') = disconnect_each-IsValid started w.ready_sessions w issued v in
      (issued, subst (λ x. IsValid x issued) (same_state e' done) v')

  -- In any state that a run of the dummy clients has reached, `DoIocpJob` of a worker for a context
  -- that the kernel holds, no stop being requested, the socket's options being set and the received
  -- bytes being counted by an `int`, returns whatever the bytes are: no assertion fails, the
  -- handling of the packets ends, and the run can go on from the result. `DoSendJob`, which the
  -- worker calls next, is not part of this.
  pub round-Reachable :
      {w : Clients} (i : ℕ) (bytes : List ℕ) (m : P.Message) (started : Bool) (c : IoContext)
      (q : Completion) (k : Answers)
      → Reachable w
      → get_elem? w.pending i ≡ some c
      → SetsOptions k
      → q.stop_now ≡ false
      → Fits c q (dequeue i bytes c w)
      → (w' : Clients) × (job m started c q k (dequeue i bytes c w) ≡ some (true, w'))
        × Reachable w'
  round-Reachable i bytes m started c q k r e set go fits =
      let (issued, v) = Reachable-IsValid r in
      let (w', issued', e', v') = job-IsValid _ issued i bytes m started c q k v e set go fits in
      (w', e', working i bytes m started c q k r e set go fits e')

  -- In any state that a run of the dummy clients has reached, every session has one reference for
  -- each of its contexts with the kernel and at most one more, at most one of the contexts is for a
  -- connect or a receive, at most one for a send, which then is counted as pending, and at most one
  -- for a connect or a disconnect, none while the session is connected.
  pub counts-Reachable :
      {w : Clients} (t : ℕ)
      → Reachable w
      → (total holds t w.pending ≤ (w.session t).ref_count)
        × ((w.session t).ref_count ≤ total holds t w.pending + 1)
        × (total cycles t w.pending ≤ 1)
        × (total sends t w.pending ≤ (w.session t).send_pending_count)
        × ((w.session t).send_pending_count ≤ 1)
        × (linked (w.session t) + total keeps t w.pending ≤ 1)
  counts-Reachable t r =
      let (issued, v) = Reachable-IsValid r in
      let f = v t in
      (
        omega (arith, f.refs),
        omega (arith, f.refs, f.once),
        f.cycle,
        omega (arith, f.sent),
        f.count,
        omega (arith, f.owner, f.once),
      )
