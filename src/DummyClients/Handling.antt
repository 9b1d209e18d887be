-- ===== src/DummyClients/Handling.antt =====
-- `OnReceive` with the handlers of the packets, and the reference counts.
use gsp.Prelude.{
  ℕ, zero, suc, ◌+◌, ◌%◌, ◌^◌, ◌==◌, ◌<◌, refl, inl, inr, Bool, arith, Bool-cases, dec_lt,
}
use gsp.CircularBuffer
use gsp.CircularBuffer.{CircularBuffer}
use gsp.CircularBuffer.Memory.{Bytes, window}
use gsp.DummyClients.State.{
  dr_active, PacketHeader, header_size, DummyClientSession, Clients, M, ◌>>=◌,
}
use gsp.DummyClients.Packets.{
  Streams, IsLawful, HandlerFunc, to_header, to_int, too_short, known_type, packet_size, consume,
  payload_at, receive_packet, receive_loop, on_receive, register_handler, initialize_handlers,
  login_handler,
}
use gsp.DummyClients.Counting.{total, cycles}
use gsp.DummyClients.References.{Handling, Handling-same, with_session}
use gsp.DummyClients.Handlers.{Keeps, Careful, disconnect_request-Keeps}

consume-Careful : (s : ℕ) (header : PacketHeader) → Careful s (consume s header)
unfolding consume
consume-Careful s header w issued h =
    let c : DummyClientSession = record (w.session s) {
      recv_buffer = CircularBuffer.remove (w.session s).recv_buffer (packet_size header);
    } in
    (tt, with_session w s c, refl, Handling-same h c refl (omega arith) refl, omega arith)

-- One after the other.
then-Careful :
    (s : ℕ) (m m' : M (Unit {0})) → Careful s m → Careful s m' → Careful s (m >>= λ _. m')
then-Careful s m m' careful careful' w issued h =
    let (_, w₁, e, h₁, few) = careful w issued h in
    let (_, w₂, e', h₂, few') = careful' w₁ issued h₁ in
    (tt, w₂, ground (arith, e, e'), h₂, omega (arith, few, few'))

module _ {S : Streams} (lawful : IsLawful S) (table : ℕ → HandlerFunc S) (started : Bool) (s : ℕ)
    (careful : (packet_type : ℕ) (header : PacketHeader) (st : S.Stream)
      → Careful s (table packet_type s header st)) where
  receive_packet-Careful :
      (header : PacketHeader) (st : S.Stream) (rest : M (Unit {0}))
      → Careful s rest
      → Careful s (receive_packet S table started s header st rest)
  unfolding receive_packet
  receive_packet-Careful header st rest goes_on w issued h =
      elim (Bool-cases (too_short (payload_at S st).1 header)) [
        | inl short ↦ (tt, w, ground (arith, short), h, omega arith)
        | inr enough ↦ elim (Bool-cases (known_type header)) [
          | inr unknown ↦
              let (_, w', e, h', few) =
                disconnect_request-Keeps h (omega arith) dr_active started in
              (tt, w', ground (arith, enough, unknown, e), h', few)
          | inl known ↦
              let opened : S.Stream = S.open_array (payload_at S st).0 (to_int header.size) in
              let (_, w', e, h', few) =
                then-Careful s (table header.packet_type s header opened)
                  (consume s header >>= λ _. rest) (careful header.packet_type header opened)
                  (then-Careful s (consume s header) rest (consume-Careful s header) goes_on) w
                  issued h in
              (tt, w', ground (arith, enough, known, e), h', few)
        ]
      ]

  -- Every round reads a header.
  receive_loop-Careful :
      (fuel : ℕ) (st : S.Stream)
      → lawful.remaining st < fuel
      → Careful s (receive_loop S table started s fuel st)
  unfolding receive_loop
  receive_loop-Careful zero st enough w issued h = absurd (omega arith)
  receive_loop-Careful (suc fuel) st enough w issued h =
      elim (dec_lt (lawful.remaining st) header_size) [
        | yes short ↦ (
          tt,
          w,
          ground
              (arith, lawful.read_raw_short (w.session s).recv_buffer.bytes st header_size short),
          h,
          omega arith,
        )
        | no long ↦
            let (st', e, _, left) =
              lawful.read_raw_enough (w.session s).recv_buffer.bytes st header_size (omega arith) in
            let header : PacketHeader =
              to_header (window (w.session s).recv_buffer.bytes (lawful.position st) header_size) in
            let next : S.Stream = S.skip st' (to_int header.size) in
            let (_, w', e', h', few) =
              receive_packet-Careful header st' (receive_loop S table started s fuel next)
                (receive_loop-Careful fuel next
                  (omega (arith, left, lawful.remaining-skip st' (to_int header.size), enough)))
                w issued h in
            (tt, w', ground (arith, e, e'), h', few)
      ]

  -- With handlers that return and keep the reference counts, `OnReceive` does so too, whatever
  -- bytes the receive buffer has, as long as their number is an `int`.
  pub on_receive-Keeps :
      (w : Clients) (issued : ℕ → ℕ)
      → CircularBuffer.get_contiguious_bytes (w.session s).recv_buffer < 2 ^ 31
      → Handling w issued s 1 0
      → Keeps issued s 1 0 (total cycles s w.pending) (on_receive S table started s w)
  unfolding on_receive
  on_receive-Keeps w issued small h =
      let b : CircularBuffer = (w.session s).recv_buffer in
      let n : ℕ = CircularBuffer.get_contiguious_bytes b in
      receive_loop-Careful (n + 1) (S.open_array (CircularBuffer.get_buffer_start b) (n % 2 ^ 32))
        (omega (
          arith,
          small,
          lawful.remaining-open_array (CircularBuffer.get_buffer_start b) (n % 2 ^ 32)
              (omega arith),
        ))
        w issued h

-- The table of the program: the handler of PKT_SC_LOGIN, which is 2, and else the default one.
abbrev pub client_table : (S : Streams) → (Bytes → S.Stream → Bool) → Bool → ℕ → HandlerFunc S
client_table S parse started =
    register_handler S 2 (login_handler S parse started) (initialize_handlers S)

pub client_table-Careful :
    (S : Streams) (parse : Bytes → S.Stream → Bool) (started : Bool) (s packet_type : ℕ)
    (header : PacketHeader) (st : S.Stream)
    → Careful s (client_table S parse started packet_type s header st)
unfolding login_handler
client_table-Careful S parse started s packet_type header st w issued h =
    let (_, w', e, h', few) = disconnect_request-Keeps h (omega arith) dr_active started in
    elim (Bool-cases (2 == packet_type)) [
      | inr other ↦ (tt, w, ground (arith, other), h, omega arith)
      | inl login ↦ elim (Bool-cases (parse (w.session s).recv_buffer.bytes st)) [
        | inl parsed ↦ (tt, w, ground (arith, login, parsed), h, omega arith)
        | inr failed ↦ (tt, w', ground (arith, login, failed, e), h', few)
      ]
    ]
