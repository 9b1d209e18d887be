-- ===== src/DummyClients/Packets.antt =====
-- Packets, Homework7/DummyClients/DummyClients: PacketHandler.cpp with PacketInterface.h, and
-- `SendRequest` and `Login` of DummyClientSession.cpp. Protobuf's streams and messages are
-- parameters.
use gsp.Prelude.{
  ℕ, zero, suc, ◌+◌, ◌-◌, ◌*◌, ◌/◌, ◌%◌, ◌^◌, ◌≤◌, ◌<◌, ◌≡◌, Bool, true, false, ◌&&◌, Option, none,
  some, List, [], ◌∷◌, ◌++◌, ltb, if◌then◌else◌, get_or, length, take,
}
use gsp.CircularBuffer
use gsp.CircularBuffer.{CircularBuffer}
use gsp.CircularBuffer.Memory.{Bytes, copy, window}
use gsp.DummyClients.State.{
  dr_active, PacketHeader, header_size, max_pkt_type, M, pure, ◌>>=◌, ◌>>◌, get, put, request,
  update,
}
use gsp.DummyClients.{disconnect_request}

-- `CodedInputStream` on an `ArrayInputStream`: it reads the memory when it is asked to. The sizes
-- given to `open_array` and `skip` are bit patterns of an `int`.
pub record Streams : Type 1 where
  pub Stream : Type 0
  pub open_array : Option ℕ → ℕ → Stream
  pub read_raw : Bytes → Stream → ℕ → Option (List ℕ × Stream)
  pub get_direct_buffer_pointer : Stream → Option (ℕ × ℕ)
  pub skip : Stream → ℕ → Stream

-- What Protobuf documents of them: a stream stands at a position, with some bytes remaining.
pub record IsLawful (S : Streams) : Type 0 where
  pub position : S.Stream → ℕ
  pub remaining : S.Stream → ℕ
  pub position-open_array : (p n : ℕ) → n < 2 ^ 31 → position (S.open_array (some p) n) ≡ p
  pub remaining-open_array : (p : Option ℕ) (n : ℕ) → n < 2 ^ 31 → remaining (S.open_array p n) ≡ n
  pub read_raw_enough :
      (mem : Bytes) (st : S.Stream) (n : ℕ)
      → n ≤ remaining st
      → (st' : S.Stream) × (S.read_raw mem st n ≡ some (window mem (position st) n, st'))
        × (position st' ≡ position st + n)
        × (remaining st' + n ≡ remaining st)
  pub read_raw_short :
      (mem : Bytes) (st : S.Stream) (n : ℕ) → remaining st < n → S.read_raw mem st n ≡ none
  pub pointer_some :
      (st : S.Stream)
      → 0 < remaining st
      → S.get_direct_buffer_pointer st ≡ some (position st, remaining st)
  pub pointer_none : (st : S.Stream) → remaining st ≡ 0 → S.get_direct_buffer_pointer st ≡ none
  pub skip_within :
      (st : S.Stream) (n : ℕ)
      → n < 2 ^ 31
      → n ≤ remaining st
      → (position (S.skip st n) ≡ position st + n) × (remaining (S.skip st n) + n ≡ remaining st)
  pub remaining-skip : (st : S.Stream) (n : ℕ) → remaining (S.skip st n) ≤ remaining st

-- `MessageLite`
pub record Messages : Type 1 where
  pub Message : Type 0
  pub byte_size : Message → ℕ
  pub serialize : Message → List ℕ

-- A message is serialized to as many bytes as it says.
abbrev pub IsSized : Messages → Type 0
IsSized P = (m : P.Message) → length (P.serialize m) ≡ P.byte_size m

-- The four bytes of a header in memory, the low byte of each `short` first.
abbrev pub header_bytes : PacketHeader → List ℕ
header_bytes h =
    h.size % 2 ^ 8
    ∷ h.size / 2 ^ 8 % 2 ^ 8
    ∷ h.packet_type % 2 ^ 8
    ∷ h.packet_type / 2 ^ 8 % 2 ^ 8
    ∷ []

abbrev pub to_header : List ℕ → PacketHeader
to_header raw = record {
  size = (get_or raw 0 0 + get_or raw 1 0 * 2 ^ 8) % 2 ^ 16;
  packet_type = (get_or raw 2 0 + get_or raw 3 0 * 2 ^ 8) % 2 ^ 16;
}

-- A `short` as an `int`.
abbrev pub to_int : ℕ → ℕ
to_int v = if ltb v (2 ^ 15) then v else v + (2 ^ 32 - 2 ^ 16)

-- `payloadSize < packetheader.mSize`, where a size with the sign bit is negative.
abbrev pub too_short : ℕ → PacketHeader → Bool
too_short payload_size h = ltb h.size (2 ^ 15) && ltb payload_size h.size

-- `mType >= MAX_PKT_TYPE || mType <= 0` is false: a pattern from 1 to 1023.
abbrev pub known_type : PacketHeader → Bool
known_type h = ltb 0 h.packet_type && ltb h.packet_type max_pkt_type

-- `HEADER_SIZE + packetheader.mSize` as a `size_t`
abbrev pub packet_size : PacketHeader → ℕ
packet_size h =
    if ltb h.size (2 ^ 15)
    then header_size + h.size
    else (header_size + h.size + (2 ^ 64 - 2 ^ 16)) % 2 ^ 64

-- `mRecvBuffer.Remove` after a packet
unfoldable pub consume : ℕ → PacketHeader → M (Unit {0})
consume s h = do
  c ← get s
  put s (record c { recv_buffer = CircularBuffer.remove c.recv_buffer (packet_size h) })

module _ (S : Streams) where
  abbrev pub HandlerFunc : Type 0
  HandlerFunc = ℕ → PacketHeader → S.Stream → M (Unit {0})

  -- `DefaultHandler` prints.
  abbrev pub default_handler : HandlerFunc
  default_handler s h payload = pure tt

  -- `InitializeHandlers` and `RegisterHandler`
  abbrev pub initialize_handlers : ℕ → HandlerFunc
  initialize_handlers _ = default_handler

  abbrev pub register_handler : ℕ → HandlerFunc → (ℕ → HandlerFunc) → ℕ → HandlerFunc
  register_handler pkt_type handler table = update table pkt_type handler

  -- The handler of PKT_SC_LOGIN; `parse` is `LoginResult::ParseFromCodedStream`, and `started` the
  -- answer of DisconnectEx.
  unfoldable pub login_handler : (Bytes → S.Stream → Bool) → Bool → HandlerFunc
  login_handler parse started s h payload = do
    c ← get s
    if parse c.recv_buffer.bytes payload then pure tt else disconnect_request s dr_active started

  -- `payloadPos` and `payloadSize`, null and 0 when nothing is unread.
  abbrev pub payload_at : S.Stream → Option ℕ × ℕ
  payload_at st = elim (S.get_direct_buffer_pointer st) [
    | none ↦ (none, 0)
    | some (p, n) ↦ (some p, n)
  ]

  module _ (table : ℕ → HandlerFunc) (started : Bool) (s : ℕ) where
    -- One packet, from its header on, and then the rest of the loop.
    unfoldable pub receive_packet : PacketHeader → S.Stream → M (Unit {0}) → M (Unit {0})
    unfolding consume
    receive_packet h st rest =
        if too_short (payload_at st).1 h
        then pure tt
        else if known_type h
        then (do
          table h.packet_type s h (S.open_array (payload_at st).0 (to_int h.size))
          consume s h
          rest)
        else disconnect_request s dr_active started

    -- The loop of `OnReceive` on fuel.
    unfoldable pub receive_loop : ℕ → S.Stream → M (Unit {0})
    receive_loop zero st w = none
    receive_loop (suc fuel) st w =
        elim (S.read_raw (w.session s).recv_buffer.bytes st header_size) [
          | none ↦ some (tt, w)
          | some (raw, st') ↦
              receive_packet (to_header raw) st'
                (receive_loop fuel (S.skip st' (to_int (to_header raw).size))) w
        ]

    -- Every round reads at least a header.
    unfoldable pub on_receive : M (Unit {0})
    on_receive w =
        let b : CircularBuffer = (w.session s).recv_buffer in
        receive_loop (CircularBuffer.get_contiguious_bytes b + 1)
          (S.open_array (CircularBuffer.get_buffer_start b)
            (CircularBuffer.get_contiguious_bytes b % 2 ^ 32))
          w

module _ (P : Messages) where
  unfoldable pub send_request : ℕ → ℕ → P.Message → M Bool
  send_request s packet_type payload = do
    c ← get s
    if c.connected
        then (do
          let total_size = P.byte_size payload + header_size
          let (free, b) = CircularBuffer.get_free_space_size c.send_buffer
          put s (record c { send_buffer = b })
          if ltb free total_size then pure false else (do
            let header : PacketHeader = record {
              size = P.byte_size payload % 2 ^ 16;
              packet_type = packet_type % 2 ^ 16;
            }
            let written : CircularBuffer = record b {
              bytes =
                  copy b.bytes (CircularBuffer.get_buffer b)
                    (take total_size (header_bytes header ++ P.serialize payload));
            }
            request s
            put s (record c { send_buffer = CircularBuffer.commit written total_size })
            pure true))
        else pure false

  -- PKT_CS_LOGIN is 1. `login_request` is the message for the next player.
  unfoldable pub login : ℕ → P.Message → M (Unit {0})
  login s login_request = do sent ← send_request s 1 login_request; pure tt
