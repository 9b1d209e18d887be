-- ===== src/DummyClients/Framing.antt =====
-- Packets and their bytes, and what a list of packets does to the session that gets it.
use gsp.Prelude.{
  ℕ, ◌+◌, ◌-◌, ◌^◌, ◌≤◌, ◌<◌, ◌≡◌, refl, sym, ap, ◌∙◌, ◌⊎◌, some, List, [], ◌∷◌, ◌++◌, arith,
  length, take, drop, length-append, take-length-append,
}
use gsp.CircularBuffer.{CircularBuffer, remove, remove_from_a, remove_from_b, switch_to_b}
use gsp.CircularBuffer.Memory.{Bytes, window, window-take, drop-window}
use gsp.DummyClients.State.{Clients, PacketHeader, header_size, M, pure, ◌>>=◌, ◌>>◌, update}
use gsp.DummyClients.Packets.{
  Streams, IsLawful, header_bytes, to_header, packet_size, HandlerFunc, consume,
}

pub record Packet : Type 0 where
  pub packet_type : ℕ
  pub payload : List ℕ

-- A packet whose size fits a `short` and whose type has a place in the table.
abbrev pub IsPacket : Packet → Type 0
IsPacket p = (0 < p.packet_type) × (p.packet_type < 1024) × (length p.payload < 2 ^ 15)

abbrev pub header_of : Packet → PacketHeader
header_of p = record { size = length p.payload; packet_type = p.packet_type }

abbrev pub frame : Packet → List ℕ
frame p = header_bytes (header_of p) ++ p.payload

abbrev pub frames : List Packet → List ℕ
frames [] = []
frames (p ∷ ps) = frame p ++ frames ps

abbrev pub AllPackets : List Packet → Type 0
AllPackets [] = Unit
AllPackets (p ∷ ps) = IsPacket p × AllPackets ps

-- Bytes that do not hold a whole packet: no header, or less than the header says.
abbrev pub Incomplete : List ℕ → Type 0
Incomplete tail =
    (length tail < header_size)
    ⊎ ((header_size ≤ length tail)
        × ((to_header (take header_size tail)).size < 2 ^ 15)
        × (length tail < header_size + (to_header (take header_size tail)).size))

pub header_round : (p : Packet) → IsPacket p → to_header (header_bytes (header_of p)) ≡ header_of p
header_round p v = ground (arith, v)

pub length-frame : (p : Packet) → length (frame p) ≡ header_size + length p.payload
length-frame p = length-append (header_bytes (header_of p)) p.payload

-- A table of handlers that read their payload through the stream, each of which does `react` for
-- its bytes.
abbrev pub Reads :
    (S : Streams) → IsLawful S → ℕ → (ℕ → HandlerFunc S) → (ℕ → List ℕ → M (Unit {0})) → Type 0
Reads S lawful s table react =
    (h : PacketHeader) (st : S.Stream) (w : Clients)
    → table h.packet_type s h st w
      ≡ react h.packet_type
          (window (w.session s).recv_buffer.bytes (lawful.position st) (lawful.remaining st)) w

-- Handlers return, and leave the receive buffer of the session alone.
abbrev pub Quiet : ℕ → (ℕ → List ℕ → M (Unit {0})) → Type 0
Quiet s react =
    (packet_type : ℕ) (payload : List ℕ) (w : Clients)
    → (w' : Clients) × (react packet_type payload w ≡ some (tt, w'))
      × ((w'.session s).recv_buffer ≡ (w.session s).recv_buffer)

-- What a list of packets does: each is handled and then removed.
unfoldable pub handle_all : ℕ → (ℕ → List ℕ → M (Unit {0})) → List Packet → M (Unit {0})
handle_all s react [] = pure tt
handle_all s react (p ∷ ps) = do
  react p.packet_type p.payload
  consume s (header_of p)
  handle_all s react ps

-- The stream stands at the front of the buffer, with the bytes `xs` of region A.
abbrev pub Synced : {S : Streams} → IsLawful S → S.Stream → CircularBuffer → List ℕ → Type 0
Synced lawful st b xs =
    (lawful.remaining st ≡ length xs)
    × (0 < length xs
        → (lawful.position st ≡ b.a_pointer)
          × (b.a_size ≡ length xs)
          × (window b.bytes b.a_pointer b.a_size ≡ xs))

pub remove_inside :
    (b : CircularBuffer) (n : ℕ)
    → n < b.a_size
    → ((remove b n).a_pointer ≡ b.a_pointer + n)
      × ((remove b n).a_size ≡ b.a_size - n)
      × ((remove b n).bytes ≡ b.bytes)
unfolding remove remove_from_a remove_from_b switch_to_b
remove_inside b n lt = ground arith

-- The receive buffer after a packet of `k` bytes is removed.
abbrev pub consumed : ℕ → ℕ → Clients → Clients
consumed s k w = record w {
  session =
      update w.session s
        (record (w.session s) { recv_buffer = remove (w.session s).recv_buffer k });
}

pub consume_result :
    (s : ℕ) (h : PacketHeader) (w : Clients)
    → consume s h w ≡ some (tt, consumed s (packet_size h) w)
unfolding consume
consume_result s h w = refl

pub consumed_buffer :
    (s k : ℕ) (w : Clients)
    → ((consumed s k w).session s).recv_buffer ≡ remove (w.session s).recv_buffer k
consumed_buffer s k w = ground arith

-- Three actions, each of which ends.
pub after :
    (m m' m'' : M (Unit {0})) {w w₁ w₂ w₃ : Clients}
    → m w ≡ some (tt, w₁)
    → m' w₁ ≡ some (tt, w₂)
    → m'' w₂ ≡ some (tt, w₃)
    → (m >>= λ _. m' >>= λ _. m'') w ≡ some (tt, w₃)
after m m' m'' e e' e'' = ground (arith, e, e', e'')

pub payload_window :
    (p : Packet) (ys : List ℕ) (b : CircularBuffer)
    → b.a_size ≡ length (frame p ++ ys)
    → window b.bytes b.a_pointer b.a_size ≡ frame p ++ ys
    → window b.bytes (b.a_pointer + header_size) (length p.payload) ≡ p.payload
payload_window p ys b size bytes =
    let long : length (frame p ++ ys) ≡ header_size + length p.payload + length ys =
      length-append (frame p) ys ∙ ap (λ k. k + length ys) (length-frame p) in
    window-take b.bytes (b.a_pointer + header_size) (b.a_size - header_size) (length p.payload)
      (p.payload ++ ys) (omega (arith, size, long))
      (sym (drop-window b.bytes b.a_pointer b.a_size header_size (omega (arith, size, long)))
        ∙ ap (λ l. drop header_size l) bytes)
    ∙ take-length-append p.payload ys

pub window_none : (f : Bytes) (o n : ℕ) → n ≡ 0 → window f o n ≡ []
window_none f o n e = rw e refl
