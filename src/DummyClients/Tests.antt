-- ===== src/DummyClients/Tests.antt =====
-- Streams that count a position and what remains, two packets of a receive buffer of 64 bytes, and
-- a receive buffer that has stalled.
use gsp.Prelude.{
  ℕ, ◌+◌, ◌-◌, ◌*◌, ◌≤◌, ◌≡◌, refl, inr, true, none, some, List, [], ◌∷◌, ◌++◌, arith, ltb, ◌==◌,
  if◌then◌else◌, get_or, length, drop,
}
use gsp.CircularBuffer.{
  CircularBuffer, make, get_free_space_size, commit, get_buffer, get_buffer_start,
  get_contiguious_bytes,
}
use gsp.CircularBuffer.Memory.{Bytes, window}
use gsp.CircularBuffer.Invariant.{IsValid, make-IsValid}
use gsp.CircularBuffer.Queue.{contents, peek, store, store-IsValid}
use gsp.DummyClients.State.{DummyClientSession, Clients, M}
use gsp.DummyClients.{recv_completion}
use gsp.DummyClients.Packets.{Streams, IsLawful, Messages, HandlerFunc, on_receive, send_request}
use gsp.DummyClients.Framing.{Packet, AllPackets, frames, Incomplete, Reads, Quiet, handle_all}
use gsp.DummyClients.Receiving.{on_receive-frames}
use gsp.DummyClients.Sending.{send_all, on_receive-send_all}
use gsp.DummyClients.Stalling.{Stalled, arrived, recv_completion-Stalled}

-- A stream is a position and what remains.
abbrev pub counted : Streams
counted = record {
  Stream = ℕ × ℕ;
  open_array = λ p n. (elim p [ none ↦ 0 | some q ↦ q ], n);
  read_raw =
      λ mem st n. if ltb st.1 n then none else some (window mem st.0 n, (st.0 + n, st.1 - n));
  get_direct_buffer_pointer = λ st. if st.1 == 0 then none else some st;
  skip = λ st n. if ltb st.1 n then (st.0 + st.1, 0) else (st.0 + n, st.1 - n);
}

pub counted-IsLawful : IsLawful counted
counted-IsLawful = record {
  position = λ st. st.0;
  remaining = λ st. st.1;
  position-open_array = λ p n small. refl;
  remaining-open_array = λ p n small. refl;
  read_raw_enough = λ mem st n enough. ((st.0 + n, st.1 - n), ground arith, refl, omega arith);
  read_raw_short = λ mem st n short. ground arith;
  pointer_some = λ st some_left. ground arith;
  pointer_none = λ st no_left. ground arith;
  skip_within = λ st n small enough. (ground arith, ground arith);
  remaining-skip = λ st n. ground arith;
}

abbrev login_packet : Packet
login_packet = record { packet_type = 1; payload = 7 ∷ 8 ∷ 9 ∷ [] }

abbrev result_packet : Packet
result_packet = record { packet_type = 2; payload = 5 ∷ [] }

abbrev bytes_of : List ℕ → Bytes
bytes_of l i = get_or l i 0

abbrev new_client : DummyClientSession
new_client = record {
  recv_buffer = make (λ _. 0) 64;
  send_buffer = make (λ _. 0) 64;
  send_pending_count = 0;
  ref_count = 1;
  connected = true;
  send_total = 0;
  recv_total = 0;
}

abbrev clients_of : DummyClientSession → Clients
clients_of c = record {
  session = λ _. c;
  ready_sessions = 0 ∷ [];
  current_connect_count = 1;
  current_return_count = 0;
  total_session_send = 0;
  total_session_recv = 0;
  pending = [];
  requests = [];
}

-- Two packets and the first bytes of a third.
abbrev two_packets : List Packet
two_packets = login_packet ∷ result_packet ∷ []

abbrev third_begun : List ℕ
third_begun = 4 ∷ 0 ∷ 1 ∷ 0 ∷ 3 ∷ []

abbrev received : List ℕ
received = frames two_packets ++ third_begun

abbrev empty : CircularBuffer
empty = make (λ _. 0) 64

abbrev filled : CircularBuffer
filled = store (get_free_space_size empty).1 received

received_fits : length received ≤ (get_free_space_size empty).0
unfolding make get_free_space_size
received_fits = omega arith

filled-IsValid : IsValid filled
filled-IsValid = store-IsValid empty received (make-IsValid (λ _. 0) 64 (omega arith)) received_fits

abbrev receiving : Clients
receiving = clients_of (record new_client { recv_buffer = filled })

-- The handler notes the type and the first byte of a payload.
abbrev note_first : ℕ → List ℕ → M (Unit {0})
note_first packet_type payload w = some (
  tt,
  record w {
    total_session_recv = w.total_session_recv * 100 + packet_type * 10 + get_or payload 0 0;
  },
)

abbrev noting : ℕ → HandlerFunc counted
noting packet_type s h st w =
    note_first h.packet_type (window (w.session s).recv_buffer.bytes st.0 st.1) w

noting-Reads : Reads counted counted-IsLawful 0 noting note_first
unfolding counted-IsLawful
noting-Reads h st w = refl

note_first-Quiet : Quiet 0 note_first
note_first-Quiet packet_type payload w = (
  record w {
    total_session_recv = w.total_session_recv * 100 + packet_type * 10 + get_or payload 0 0;
  },
  refl,
  refl,
)

two-AllPackets : AllPackets two_packets
two-AllPackets =
    ((omega arith, omega arith, omega arith), ((omega arith, omega arith, omega arith), tt))

begun-Incomplete : Incomplete third_begun
begun-Incomplete = inr (omega arith, omega arith, omega arith)

filled-peek : peek filled ≡ frames two_packets ++ third_begun
unfolding make get_free_space_size store commit get_buffer get_buffer_start get_contiguious_bytes
    peek
filled-peek = refl

on_receive-frames_example :
    (w' : Clients) × (on_receive counted noting true 0 receiving ≡ some (tt, w'))
    × (handle_all 0 note_first two_packets receiving ≡ some (tt, w'))
    × (contents (w'.session 0).recv_buffer ≡ drop (length (frames two_packets)) (contents filled))
    × IsValid (w'.session 0).recv_buffer
unfolding make get_free_space_size store
on_receive-frames_example =
    on_receive-frames counted-IsLawful noting true 0 note_first noting-Reads note_first-Quiet
      two_packets third_begun receiving two-AllPackets begun-Incomplete filled-IsValid (omega arith)
      filled-peek

-- A message is its bytes.
abbrev plain : Messages
plain = record { Message = List ℕ; byte_size = λ m. length m; serialize = λ m. m }

abbrev requests : List (ℕ × List ℕ)
requests = (1, 7 ∷ 8 ∷ 9 ∷ []) ∷ (2, 5 ∷ []) ∷ []

abbrev sending : Clients
sending = clients_of new_client

abbrev sent : Clients
sent = elim (send_all plain 0 requests sending) [ none ↦ sending | some (_, w) ↦ w ]

all_sent : send_all plain 0 requests sending ≡ some (true, sent)
unfolding make send_all send_request get_free_space_size commit get_buffer
all_sent = refl

abbrev arriving : Clients
arriving =
    clients_of
      (record new_client { recv_buffer = store (get_free_space_size empty).1 (frames two_packets) })

arrives : length (frames two_packets) ≤ (get_free_space_size empty).0
unfolding make get_free_space_size
arrives = omega arith

same_bytes : peek (arriving.session 0).recv_buffer ≡ contents (sent.session 0).send_buffer
unfolding make send_all send_request get_free_space_size store commit get_buffer get_buffer_start
    get_contiguious_bytes peek
same_bytes = refl

nothing_queued : contents empty ≡ []
unfolding make
nothing_queued = refl

on_receive-send_all_example :
    (v' : Clients) × (on_receive counted noting true 0 arriving ≡ some (tt, v'))
    × (handle_all 0 note_first two_packets arriving ≡ some (tt, v'))
unfolding make get_free_space_size store
on_receive-send_all_example =
    on_receive-send_all counted-IsLawful noting true 0 note_first plain 0 requests sending sent
      arriving noting-Reads note_first-Quiet (λ m. refl) (make-IsValid (λ _. 0) 64 (omega arith))
      nothing_queued two-AllPackets all_sent
      (store-IsValid empty (frames two_packets) (make-IsValid (λ _. 0) 64 (omega arith)) arrives)
      (omega arith) same_bytes

-- Region A ends inside a packet, and its rest has gone to region B.
abbrev split_buffer : CircularBuffer
split_buffer = record {
  bytes = bytes_of (frames two_packets ++ frames two_packets ++ third_begun);
  buffer_end = 29;
  capacity = 29;
  a_pointer = 24;
  a_size = 5;
  b_pointer = some 0;
  b_size = 2;
}

split-Stalled : Stalled split_buffer
unfolding peek get_buffer_start get_contiguious_bytes
split-Stalled = record {
  valid = record {
    small = omega arith;
    whole = refl;
    fits = omega arith;
    regions = (refl, omega arith, omega arith);
  };
  small = omega arith;
  both = refl;
  inside = inr (omega arith, omega arith, omega arith);
}

abbrev stalled : Clients
stalled = clients_of (record new_client { recv_buffer = split_buffer })

recv_completion-Stalled_example :
    (w' : Clients) × (recv_completion
        (on_receive counted noting true 0)
        0
        3
        (arrived 0 (7 ∷ 8 ∷ 9 ∷ []) stalled)
      ≡ some (tt, w'))
    × (contents (w'.session 0).recv_buffer ≡ contents split_buffer ++ (7 ∷ 8 ∷ 9 ∷ []))
    × Stalled (w'.session 0).recv_buffer
unfolding get_free_space_size
recv_completion-Stalled_example =
    recv_completion-Stalled counted-IsLawful noting true 0 (7 ∷ 8 ∷ 9 ∷ []) stalled split-Stalled
      (omega arith)
