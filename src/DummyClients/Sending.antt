-- ===== src/DummyClients/Sending.antt =====
-- `SendRequest` against the packets that it queues, and both ends together.
use mathlib.Core.List.{append-nil, append_assoc}
use gsp.Prelude.{
  ℕ, ◌+◌, ◌%◌, ◌^◌, ◌≤◌, ◌<◌, ◌≡◌, refl, sym, ap, ap₂, ◌∙◌, inl, inr, Bool, true, false, some, List,
  [], ◌∷◌, ◌++◌, arith, if◌then◌else◌, length, take, subst, take-length-append, dec_lt, Bool-cases,
  Option-cases,
}
use gsp.CircularBuffer.{CircularBuffer, get_free_space_size, get_buffer, commit}
use gsp.CircularBuffer.Memory.{copy}
use gsp.CircularBuffer.Invariant.{IsValid}
use gsp.CircularBuffer.Queue.{contents, peek, store, contents-store, store-IsValid}
use gsp.DummyClients.State.{
  DummyClientSession, Clients, PacketHeader, header_size, M, pure, ◌>>=◌, update,
}
use gsp.DummyClients.Packets.{
  Streams, IsLawful, Messages, IsSized, HandlerFunc, header_bytes, send_request, on_receive,
}
use gsp.DummyClients.Framing.{
  Packet, IsPacket, AllPackets, frame, frames, Reads, Quiet, handle_all, length-frame,
}
use gsp.DummyClients.Receiving.{on_receive-frames}

module _ (P : Messages) where
  -- The packet of a message.
  abbrev pub packet : ℕ → P.Message → Packet
  packet packet_type m = record { packet_type = packet_type; payload = P.serialize m }

  abbrev pub request_header : ℕ → P.Message → PacketHeader
  request_header packet_type m = record {
    size = P.byte_size m % 2 ^ 16;
    packet_type = packet_type % 2 ^ 16;
  }

  -- The send buffer after the bytes are queued.
  abbrev pub queued : CircularBuffer → ℕ → P.Message → CircularBuffer
  queued b packet_type m =
      commit
        (record b {
          bytes = copy b.bytes (get_buffer b) (
              take (P.byte_size m + header_size)
                (header_bytes (request_header packet_type m) ++ P.serialize m));
        })
        (P.byte_size m + header_size)

  pub sent :
      (s packet_type : ℕ) (m : P.Message) (w w' : Clients)
      → send_request P s packet_type m w ≡ some (true, w')
      → (P.byte_size m + header_size ≤ (get_free_space_size (w.session s).send_buffer).0)
        × ((w'.session s).send_buffer
            ≡ queued (get_free_space_size (w.session s).send_buffer).1 packet_type m)
  unfolding send_request
  sent s packet_type m w w' e = elim (Bool-cases (w.session s).connected) [
    | inr off ↦ absurd (ground arith)
    | inl on ↦
        elim (dec_lt (get_free_space_size (w.session s).send_buffer).0
          (P.byte_size m + header_size)) [
            | yes lt ↦ absurd (ground arith)
            | no ge ↦ (omega arith, ground arith)
          ]
  ]

  -- A request that there is room for.
  pub accepted :
      (s packet_type : ℕ) (m : P.Message) (w : Clients)
      → (w.session s).connected ≡ true
      → P.byte_size m + header_size ≤ (get_free_space_size (w.session s).send_buffer).0
      → (w' : Clients) × (send_request P s packet_type m w ≡ some (true, w'))
        × (w'.session s ≡ record (w.session s) {
          send_buffer = queued (get_free_space_size (w.session s).send_buffer).1 packet_type m;
        })
        × (w'.pending ≡ w.pending)
        × (w'.requests ≡ w.requests ++ (s ∷ []))
        × (w'.current_connect_count ≡ w.current_connect_count)
  unfolding send_request
  accepted s packet_type m w on room =
      let c : DummyClientSession = w.session s in
      let b : CircularBuffer = (get_free_space_size c.send_buffer).1 in
      let w₁ : Clients = record w {
        session = update w.session s (record c { send_buffer = b });
        requests = w.requests ++ (s ∷ []);
      } in
      (
        record w₁ {
          session = update w₁.session s (record c { send_buffer = queued b packet_type m });
        },
        ground (arith, on, room),
        ground arith,
        refl,
        refl,
        refl,
      )

  module _ (sized : IsSized P) where
    pub queued_lem :
        (b : CircularBuffer) (packet_type : ℕ) (m : P.Message)
        → IsPacket (packet packet_type m)
        → queued b packet_type m ≡ store b (frame (packet packet_type m))
    unfolding store
    queued_lem b packet_type m v =
        let p : Packet = packet packet_type m in
        let whole : length (frame p) ≡ P.byte_size m + header_size =
          omega (arith, length-frame p, sized m) in
        let written : header_bytes (request_header packet_type m) ++ P.serialize m ≡ frame p =
          ap₂ (λ n t. header_bytes (record { size = n; packet_type = t }) ++ P.serialize m)
            (omega (arith, sized m, v)) (omega (arith, v)) in
        let taken : take (P.byte_size m + header_size)
              (header_bytes (request_header packet_type m) ++ P.serialize m)
            ≡ frame p =
          ap₂ (λ n l. take n l) (sym whole) (written ∙ sym (append-nil (frame p)))
          ∙ take-length-append (frame p) [] in
        ap₂ (λ l n. commit (record b { bytes = copy b.bytes (get_buffer b) l }) n) taken (sym whole)

    -- A request that is accepted puts its packet at the end of a valid send buffer.
    send_request-frame :
        (s packet_type : ℕ) (m : P.Message) (w w' : Clients)
        → IsValid (w.session s).send_buffer
        → IsPacket (packet packet_type m)
        → send_request P s packet_type m w ≡ some (true, w')
        → (contents (w'.session s).send_buffer
            ≡ contents (w.session s).send_buffer ++ frame (packet packet_type m))
          × IsValid (w'.session s).send_buffer
    send_request-frame s packet_type m w w' valid v e =
        let (fits, now) = sent s packet_type m w w' e in
        let b : CircularBuffer = (w.session s).send_buffer in
        let same : (w'.session s).send_buffer
            ≡ store (get_free_space_size b).1 (frame (packet packet_type m)) =
          now ∙ queued_lem (get_free_space_size b).1 packet_type m v in
        let room : length (frame (packet packet_type m)) ≤ (get_free_space_size b).0 =
          omega (arith, length-frame (packet packet_type m), sized m, fits) in
        (
          ap contents same ∙ contents-store b (frame (packet packet_type m)) valid room,
          subst IsValid (sym same) (store-IsValid b (frame (packet packet_type m)) valid room),
        )

  -- The requests of a session, one after the other; the result is whether all were accepted.
  unfoldable pub send_all : ℕ → List (ℕ × P.Message) → M Bool
  send_all s [] = pure true
  send_all s ((packet_type, m) ∷ ms) = do
    accepted ← send_request P s packet_type m
    if accepted then send_all s ms else pure false

  abbrev pub packets : List (ℕ × P.Message) → List Packet
  packets [] = []
  packets ((packet_type, m) ∷ ms) = packet packet_type m ∷ packets ms

  -- Requests that are all accepted put their packets at the end of a valid send buffer, in order.
  pub send_all-frames :
      (sized : IsSized P) (s : ℕ) (ms : List (ℕ × P.Message)) (w w' : Clients)
      → IsValid (w.session s).send_buffer
      → AllPackets (packets ms)
      → send_all s ms w ≡ some (true, w')
      → (contents (w'.session s).send_buffer
          ≡ contents (w.session s).send_buffer ++ frames (packets ms))
        × IsValid (w'.session s).send_buffer
  unfolding send_all
  send_all-frames sized s [] w w' valid v e =
      (ground (arith, e, append-nil (contents (w.session s).send_buffer)), ground (arith, e, valid))
  send_all-frames sized s ((packet_type, m) ∷ ms) w w' valid (v, vs) e =
      elim (Option-cases (send_request P s packet_type m w)) [
        | inl q ↦ absurd (ground (arith, e, q))
        | inr ((false, w₁), q) ↦ absurd (ground (arith, e, q))
        | inr ((true, w₁), q) ↦
            let (first, valid₁) = send_request-frame sized s packet_type m w w₁ valid v q in
            let (others, valid') =
              send_all-frames sized s ms w₁ w' valid₁ vs (ground (arith, e, q)) in
            (
              others
                  ∙ ap (λ l. l ++ frames (packets ms)) first
                  ∙ append_assoc (contents (w.session s).send_buffer) (frame (packet packet_type m))
                      (frames (packets ms)),
              valid',
            )
      ]

-- Round trip: requests that a session queues in an empty send buffer, each of a known type and of a
-- size below 2 ^ 15, are handled by the other end in order, payload by payload, when all their
-- bytes stand in region A of its valid receive buffer and its handlers read the payload through the
-- stream.
pub on_receive-send_all :
    {S : Streams} (lawful : IsLawful S) (table : ℕ → HandlerFunc S) (started : Bool) (r : ℕ)
    (react : ℕ → List ℕ → M (Unit {0})) (P : Messages) (s : ℕ) (ms : List (ℕ × P.Message))
    (w w' v : Clients)
    → Reads S lawful r table react
    → Quiet r react
    → IsSized P
    → IsValid (w.session s).send_buffer
    → contents (w.session s).send_buffer ≡ []
    → AllPackets (packets P ms)
    → send_all P s ms w ≡ some (true, w')
    → IsValid (v.session r).recv_buffer
    → (v.session r).recv_buffer.capacity < 2 ^ 31
    → peek (v.session r).recv_buffer ≡ contents (w'.session s).send_buffer
    → (v' : Clients) × (on_receive S table started r v ≡ some (tt, v'))
      × (handle_all r react (packets P ms) v ≡ some (tt, v'))
on_receive-send_all lawful table started r react P s ms w w' v reads quiet sized valid nothing all e
      valid' small same =
    let (now, _) = send_all-frames P sized s ms w w' valid all e in
    let whole : peek (v.session r).recv_buffer ≡ frames (packets P ms) ++ [] =
      same
      ∙ now
      ∙ ap (λ l. l ++ frames (packets P ms)) nothing
      ∙ sym (append-nil (frames (packets P ms))) in
    let (v', received, handled, _, _) =
      on_receive-frames lawful table started r react reads quiet (packets P ms) [] v all
        (inl (omega arith)) valid' small whole in
    (v', received, handled)
