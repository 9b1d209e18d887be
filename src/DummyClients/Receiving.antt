-- ===== src/DummyClients/Receiving.antt =====
-- A call of `OnReceive` on a buffer whose region A holds packets.
use gsp.Prelude.{
  ℕ, suc, ◌+◌, ◌%◌, ◌^◌, ◌≤◌, ◌<◌, ◌≡◌, sym, ap, ◌∙◌, Bool, some, List, [], ◌∷◌, ◌++◌, arith,
  length, drop, length-append, subst, drop-drop,
}
use gsp.CircularBuffer.{CircularBuffer, remove, get_contiguious_bytes, get_buffer_start}
use gsp.CircularBuffer.Memory.{window}
use gsp.CircularBuffer.Invariant.{IsValid, remove-IsValid}
use gsp.CircularBuffer.Queue.{contents, peek, contents-remove, peek_bounds}
use gsp.DummyClients.State.{Clients, M}
use gsp.DummyClients.Packets.{Streams, IsLawful, HandlerFunc, on_receive, packet_size, receive_loop}
use gsp.DummyClients.Framing.{
  Packet, AllPackets, header_of, frame, frames, Incomplete, Reads, Quiet, handle_all, Synced,
  consumed, consume_result, consumed_buffer, length-frame,
}
use gsp.DummyClients.Rounds.{loop_all, loop_rest}

-- The buffer after the packets are handled.
handled-contents :
    (s : ℕ) (react : ℕ → List ℕ → M (Unit {0})) (ps : List Packet) (w w' : Clients)
    → Quiet s react
    → AllPackets ps
    → IsValid (w.session s).recv_buffer
    → handle_all s react ps w ≡ some (tt, w')
    → (contents (w'.session s).recv_buffer
        ≡ drop (length (frames ps)) (contents (w.session s).recv_buffer))
      × IsValid (w'.session s).recv_buffer
unfolding handle_all
handled-contents s react [] w w' quiet v valid e = (ground (arith, e), ground (arith, e, valid))
handled-contents s react (p ∷ ps) w w' quiet (v, vs) valid e =
    let k : ℕ = packet_size (header_of p) in
    let b : CircularBuffer = (w.session s).recv_buffer in
    let (w₁, ran, same) = quiet p.packet_type p.payload w in
    let now : ((consumed s k w₁).session s).recv_buffer ≡ remove b k =
      consumed_buffer s k w₁ ∙ ap (λ c. remove c k) same in
    let later : handle_all s react ps (consumed s k w₁) ≡ some (tt, w') =
      ground (arith, e, ran, consume_result s (header_of p) w₁) in
    let (rest, valid') =
      handled-contents s react ps (consumed s k w₁) w' quiet vs
        (subst IsValid (sym now) (remove-IsValid b k valid)) later in
    (
      rest
          ∙ ap (λ c. drop (length (frames ps)) (contents c)) now
          ∙ ap (λ l. drop (length (frames ps)) l) (contents-remove b k valid)
          ∙ drop-drop k (length (frames ps)) (contents b)
          ∙ ap (λ n. drop n (contents b)) {x = k + length (frames ps)}
              {y = length (frame p ++ frames ps)}
              (ground (arith, length-append (frame p) (frames ps), length-frame p, v)),
      valid',
    )

few_packets : (ps : List Packet) → length ps ≤ length (frames ps)
few_packets [] = omega arith
few_packets (p ∷ ps) =
    omega (arith, few_packets ps, length-append (frame p) (frames ps), length-frame p)

front_region :
    (b : CircularBuffer)
    → IsValid b
    → 0 < get_contiguious_bytes b
    → (get_buffer_start b ≡ some b.a_pointer)
      × (get_contiguious_bytes b ≡ b.a_size)
      × (peek b ≡ window b.bytes b.a_pointer b.a_size)
unfolding get_contiguious_bytes get_buffer_start peek
front_region b v some_bytes = ground arith

module _ {S : Streams} (lawful : IsLawful S) where
  opened-Synced :
      (b : CircularBuffer)
      → IsValid b
      → b.capacity < 2 ^ 31
      → Synced lawful
          (S.open_array (get_buffer_start b) (get_contiguious_bytes b % 2 ^ 32))
          b
          (peek b)
  opened-Synced b v small =
      let n : ℕ = get_contiguious_bytes b in
      let (long, inside, _) = peek_bounds b v in
      let size : n % 2 ^ 32 ≡ n = omega (arith, inside) in
      (
        lawful.remaining-open_array (get_buffer_start b) (n % 2 ^ 32) (omega (arith, inside))
            ∙ size
            ∙ sym long,
        λ some_bytes.
            let (at, whole, same) = front_region b v (omega (arith, long)) in
            (
              ap (λ q. lawful.position (S.open_array q (n % 2 ^ 32))) at
                  ∙ lawful.position-open_array b.a_pointer (n % 2 ^ 32) (omega (arith, inside)),
              sym whole ∙ sym long,
              sym same,
            ),
      )

  -- Bytes that are not a whole packet are left alone.
  pub on_receive_rest :
      (table : ℕ → HandlerFunc S) (started : Bool) (s : ℕ) (w : Clients)
      → IsValid (w.session s).recv_buffer
      → (w.session s).recv_buffer.capacity < 2 ^ 31
      → Incomplete (peek (w.session s).recv_buffer)
      → on_receive S table started s w ≡ some (tt, w)
  unfolding on_receive
  on_receive_rest table started s w valid small short =
      let b : CircularBuffer = (w.session s).recv_buffer in
      ap
        (λ n.
          receive_loop S table started s n
            (S.open_array (get_buffer_start b) (get_contiguious_bytes b % 2 ^ 32)) w)
        {x = get_contiguious_bytes b + 1} {y = suc (get_contiguious_bytes b)} (omega arith)
      ∙ loop_rest lawful table started s (get_contiguious_bytes b) (peek b)
          (S.open_array (get_buffer_start b) (get_contiguious_bytes b % 2 ^ 32)) w short
          (opened-Synced b valid small)

module _ {S : Streams} (lawful : IsLawful S) (table : ℕ → HandlerFunc S) (started : Bool) (s : ℕ)
    (react : ℕ → List ℕ → M (Unit {0})) (reads : Reads S lawful s table react)
    (quiet : Quiet s react) where
  -- For a valid receive buffer whose region A holds whole packets and then bytes that are not a
  -- whole packet, and handlers that return and read their payload through the stream: `OnReceive`
  -- returns, it has handled the packets in order, and the buffer has what it had behind them.
  pub on_receive-frames :
      (ps : List Packet) (tail : List ℕ) (w : Clients)
      → AllPackets ps
      → Incomplete tail
      → IsValid (w.session s).recv_buffer
      → (w.session s).recv_buffer.capacity < 2 ^ 31
      → peek (w.session s).recv_buffer ≡ frames ps ++ tail
      → (w' : Clients) × (on_receive S table started s w ≡ some (tt, w'))
        × (handle_all s react ps w ≡ some (tt, w'))
        × (contents (w'.session s).recv_buffer
            ≡ drop (length (frames ps)) (contents (w.session s).recv_buffer))
        × IsValid (w'.session s).recv_buffer
  unfolding on_receive
  on_receive-frames ps tail w v short valid small whole =
      let b : CircularBuffer = (w.session s).recv_buffer in
      let (long, _, _) = peek_bounds b valid in
      let (w', looped, handled) =
        loop_all lawful table started s react reads quiet (get_contiguious_bytes b + 1) ps tail
          (S.open_array (get_buffer_start b) (get_contiguious_bytes b % 2 ^ 32)) w v short
          (subst
            (Synced lawful (S.open_array (get_buffer_start b) (get_contiguious_bytes b % 2 ^ 32)) b)
            whole (opened-Synced lawful b valid small))
          (omega (arith, few_packets ps, ap length whole, long, length-append (frames ps) tail)) in
      let (after_it, valid') = handled-contents s react ps w w' quiet v valid handled in
      (w', looped, handled, after_it, valid')
