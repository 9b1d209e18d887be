-- ===== src/DummyClients/Rounds.antt =====
-- The loop of `OnReceive` against a list of packets.
use mathlib.Core.List.{append_assoc}
use gsp.Prelude.{
  ℕ, zero, suc, ◌+◌, ◌^◌, ◌≤◌, ◌<◌, ◌≡◌, refl, sym, ap, ap₂, ◌∙◌, inl, inr, Bool, some, List, [],
  ◌∷◌, ◌++◌, arith, length, take, drop, length-append, subst, dec_lt, drop-length-append,
}
use gsp.CircularBuffer.{CircularBuffer, remove}
use gsp.CircularBuffer.Memory.{Bytes, window, window-take, drop-window}
use gsp.DummyClients.State.{Clients, header_size, M, ◌>>=◌}
use gsp.DummyClients.Packets.{
  Streams, IsLawful, to_int, packet_size, HandlerFunc, consume, payload_at, receive_packet,
  receive_loop,
}
use gsp.DummyClients.Framing.{
  Packet, IsPacket, header_of, frame, frames, AllPackets, Incomplete, header_round, length-frame,
  Reads, Quiet, handle_all, Synced, remove_inside, consumed, consume_result, consumed_buffer, after,
  payload_window, window_none,
}

module _ {S : Streams} (lawful : IsLawful S) where
  payload_size_lem : (st : S.Stream) → (payload_at S st).1 ≡ lawful.remaining st
  payload_size_lem st = elim (dec_lt 0 (lawful.remaining st)) [
    | yes some_left ↦ rw (lawful.pointer_some st some_left, payload_at) refl
    | no none_left ↦ rw (lawful.pointer_none st (omega arith), payload_at) (omega arith)
  ]

  read_header :
      (st : S.Stream) (b : CircularBuffer) (xs : List ℕ)
      → Synced lawful st b xs
      → header_size ≤ length xs
      → (st' : S.Stream) × (S.read_raw b.bytes st header_size ≡ some (take header_size xs, st'))
        × (lawful.position st' ≡ b.a_pointer + header_size)
        × (lawful.remaining st' + header_size ≡ length xs)
  read_header st b xs (left, at) enough =
      let (st', e, p, r) = lawful.read_raw_enough b.bytes st header_size (omega (arith, left)) in
      let (p', size, bytes) = at (omega arith) in
      (
        st',
        e
            ∙ ap (λ q. some (q, st'))
                (ap (λ o. window b.bytes o header_size) p'
                  ∙ window-take b.bytes b.a_pointer b.a_size header_size xs (omega (arith, size))
                      bytes),
        omega (arith, p, p'),
        omega (arith, r, left),
      )

  -- What a handler reads of a packet with `n` bytes of payload.
  payload_read :
      (st : S.Stream) (mem : Bytes) (n : ℕ)
      → n < 2 ^ 15
      → n ≤ lawful.remaining st
      → let opened = S.open_array (payload_at S st).0 (to_int n) in
        window mem (lawful.position opened) (lawful.remaining opened)
        ≡ window mem (lawful.position st) n
  payload_read st mem n small enough = elim (dec_lt 0 (lawful.remaining st)) [
    | yes some_left ↦
        rw (lawful.pointer_some st some_left, payload_at)
          (ap₂ (window mem)
            (lawful.position-open_array (lawful.position st) (to_int n) (ground arith))
            (lawful.remaining-open_array (some (lawful.position st)) (to_int n) (ground arith)
              ∙ ground arith))
    | no none_left ↦
        window_none mem (lawful.position (S.open_array (payload_at S st).0 (to_int n)))
          (lawful.remaining (S.open_array (payload_at S st).0 (to_int n)))
          (lawful.remaining-open_array (payload_at S st).0 (to_int n) (ground arith) ∙ ground arith)
        ∙ sym (window_none mem (lawful.position st) n (omega arith))
  ]

  module _ (table : ℕ → HandlerFunc S) (started : Bool) (s : ℕ) where
    -- Nothing more to handle.
    pub loop_rest :
        (fuel : ℕ) (tail : List ℕ) (st : S.Stream) (w : Clients)
        → Incomplete tail
        → Synced lawful st (w.session s).recv_buffer tail
        → receive_loop S table started s (suc fuel) st w ≡ some (tt, w)
    unfolding receive_loop receive_packet
    loop_rest fuel tail st w (inl short) (left, at) = ground (
      arith,
      lawful.read_raw_short (w.session s).recv_buffer.bytes st header_size (omega (arith, left)),
    )
    loop_rest fuel tail st w (inr (headed, plus, short)) sync =
        let (st', e, p, r) = read_header st (w.session s).recv_buffer tail sync headed in
        ground (arith, e, payload_size_lem st', r)

    -- A whole packet.
    packet_step :
        (p : Packet) (ys : List ℕ) (st' : S.Stream) (rest : M (Unit {0})) (w : Clients)
        → IsPacket p
        → lawful.remaining st' ≡ length p.payload + length ys
        → receive_packet S table started s (header_of p) st' rest w
          ≡ ((table p.packet_type s
                  (header_of p)
                  (S.open_array (payload_at S st').0 (to_int (length p.payload))))
                >>= λ _. consume s (header_of p) >>= λ _. rest)
              w
    unfolding receive_packet
    packet_step p ys st' rest w v r = ground (arith, payload_size_lem st', r, v)

    loop_packet :
        (fuel : ℕ) (p : Packet) (ys : List ℕ) (st st' : S.Stream) (w : Clients)
        → IsPacket p
        → S.read_raw (w.session s).recv_buffer.bytes st header_size
          ≡ some (take header_size (frame p ++ ys), st')
        → receive_loop S table started s (suc fuel) st w
          ≡ receive_packet S table started s
              (header_of p)
              st'
              (receive_loop S table started s fuel (S.skip st' (to_int (length p.payload))))
              w
    unfolding receive_loop
    loop_packet fuel p ys st st' w v e = ground (arith, e, header_round p v)

    -- The stream and the buffer after a packet.
    next_sync :
        (p : Packet) (ys : List ℕ) (st st' : S.Stream) (b : CircularBuffer)
        → IsPacket p
        → Synced lawful st b (frame p ++ ys)
        → lawful.position st' ≡ b.a_pointer + header_size
        → lawful.remaining st' ≡ length p.payload + length ys
        → Synced lawful
            (S.skip st' (to_int (length p.payload)))
            (remove b (packet_size (header_of p)))
            ys
    next_sync p ys st st' b v (left, at) pos rem =
        let n : ℕ = length p.payload in
        let k : ℕ = packet_size (header_of p) in
        let (pos', rem') =
          lawful.skip_within st' (to_int n) (ground (arith, v)) (ground (arith, v, rem)) in
        let size : length (frame p ++ ys) ≡ header_size + n + length ys =
          length-append (frame p) ys ∙ ap (λ k. k + length ys) (length-frame p) in
        (
          ground (arith, rem', rem, v),
          λ some_left.
              let (p', whole, bytes) = at (omega (arith, size)) in
              let inside : packet_size (header_of p) < b.a_size = ground (arith, whole, size, v) in
              let (e, e', e'') = remove_inside b (packet_size (header_of p)) inside in
              (
                ground (arith, pos', pos, e, v),
                ground (arith, e', whole, size, v),
                ap (λ f. window f (remove b k).a_pointer (remove b k).a_size) e''
                    ∙ ap₂ (window b.bytes) e e'
                    ∙ sym (drop-window b.bytes b.a_pointer b.a_size k (omega (arith, inside)))
                    ∙ ap (λ l. drop k l) bytes
                    ∙ ap (λ m. drop m (frame p ++ ys)) {x = k} {y = length (frame p)}
                        (ground (arith, length-frame p, v))
                    ∙ drop-length-append (frame p) ys,
              ),
        )

    module _ (react : ℕ → List ℕ → M (Unit {0})) (reads : Reads S lawful s table react)
        (quiet : Quiet s react) where
      -- The packets are handled in order and removed, and what follows them stays.
      pub loop_all :
          (fuel : ℕ) (ps : List Packet) (tail : List ℕ) (st : S.Stream) (w : Clients)
          → AllPackets ps
          → Incomplete tail
          → Synced lawful st (w.session s).recv_buffer (frames ps ++ tail)
          → length ps < fuel
          → (w' : Clients) × (receive_loop S table started s fuel st w ≡ some (tt, w'))
            × (handle_all s react ps w ≡ some (tt, w'))
      unfolding handle_all
      loop_all zero ps tail st w v short sync enough = absurd (omega arith)
      loop_all (suc fuel) [] tail st w v short sync enough =
          (w, loop_rest fuel tail st w short sync, refl)
      loop_all (suc fuel) (p ∷ ps) tail st w (v, vs) short sync enough =
          let b : CircularBuffer = (w.session s).recv_buffer in
          let ys : List ℕ = frames ps ++ tail in
          let sync' : Synced lawful st b (frame p ++ ys) =
            subst (Synced lawful st b) (append_assoc (frame p) (frames ps) tail) sync in
          let size : length (frame p ++ ys) ≡ header_size + length p.payload + length ys =
            length-append (frame p) ys ∙ ap (λ k. k + length ys) (length-frame p) in
          let (st', e, pos, rem) = read_header st b (frame p ++ ys) sync' (omega (arith, size)) in
          let rem' : lawful.remaining st' ≡ length p.payload + length ys =
            omega (arith, rem, size) in
          let (w₁, ran, same) = quiet p.packet_type p.payload w in
          let k : ℕ = packet_size (header_of p) in
          let next : S.Stream = S.skip st' (to_int (length p.payload)) in
          let sync'' : Synced lawful next ((consumed s k w₁).session s).recv_buffer ys =
            subst (λ c. Synced lawful next c ys)
              (sym (consumed_buffer s k w₁ ∙ ap (λ c. remove c k) same))
              (next_sync p ys st st' b v sync' pos rem') in
          let (w₂, looped, rest) =
            loop_all fuel ps tail next (consumed s k w₁) vs short sync'' (omega arith) in
          let later : M (Unit {0}) = receive_loop S table started s fuel next in
          let opened : S.Stream = S.open_array (payload_at S st').0 (to_int (length p.payload)) in
          let handled : table p.packet_type s (header_of p) opened w ≡ some (tt, w₁) =
            reads (header_of p) opened w
            ∙ ap (λ l. react p.packet_type l w)
                (payload_read st' b.bytes (length p.payload) v.2 (omega (arith, rem'))
                  ∙ ap (λ o. window b.bytes o (length p.payload)) pos
                  ∙ payload_window p ys b (sync'.1 (omega (arith, size))).1
                      (sync'.1 (omega (arith, size))).2)
            ∙ ran in
          (
            w₂,
            loop_packet fuel p ys st st' w v e
                ∙ packet_step p ys st' later w v rem'
                ∙ after (table p.packet_type s (header_of p) opened) (consume s (header_of p)) later
                    handled (consume_result s (header_of p) w₁) looped,
            after (react p.packet_type p.payload) (consume s (header_of p)) (handle_all s react ps)
                ran (consume_result s (header_of p) w₁) rest,
          )
