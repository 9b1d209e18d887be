-- ===== src/Session/Stream.antt =====
-- What a connected session sends: the bytes that `PostSend` accepts and those that the kernel
-- reads from the send buffer, over any order of posts, flushes and completions.
use gsp.Prelude.{
  ℕ, ◌≤◌, ◌≡◌, refl, sym, ◌∙◌, ap, inl, inr, Bool, true, some, List, [], ◌++◌, arith, length,
  get_elem?, if◌then◌else◌, subst,
}
use mathlib.Core.List.{append_assoc}
use gsp.CircularBuffer.{CircularBuffer, get_free_space_size, remove}
use gsp.CircularBuffer.Invariant.{IsValid, get_free_space_size-IsValid, remove-IsValid}
use gsp.CircularBuffer.Queue.{
  contents, store, contents-store, store-IsValid, contents-get_free_space_size,
}
use gsp.Session.State.{io_send, IoContext, Session, Sessions}
use gsp.Session.{post_send, flush_send, send_completion}
use gsp.Session.Flight.{
  landed, flying, sends, remove_at, wire, Flight, few_pending, Flight-move, store_keeps_front,
  scan_keeps_front, launched-Flight, launched_alone, counted, few_sends, flown, one_send,
  contents-wire,
}
use gsp.Session.Outcomes.{posted, flushed, completed}

-- A run of the session `s`, with the bytes accepted so far and the bytes sent so far.
pub data Run (s : ℕ) : Sessions → List ℕ → List ℕ → Type 0 where
  connected :
      (w : Sessions)
      → IsValid (w.session s).send_buffer
      → contents (w.session s).send_buffer ≡ []
      → (w.session s).connected ≡ true
      → (w.session s).send_pending_count ≡ 0
      → sends s w.pending ≡ []
      → Run s w [] []
  posting :
      {w w' : Sessions} {accepted sent : List ℕ} (data_bytes : List ℕ) (b : Bool)
      → Run s w accepted sent
      → post_send s data_bytes w ≡ some (b, w')
      → Run s w' (if b then accepted ++ data_bytes else accepted) sent
  flushing :
      {w w' : Sessions} {accepted sent : List ℕ} (d b : Bool)
      → Run s w accepted sent
      → flush_send s true d w ≡ some (b, w')
      → Run s w' accepted sent
  completing :
      {w w' : Sessions} {accepted sent : List ℕ} (i : ℕ) (c : IoContext) (n : ℕ)
      → Run s w accepted sent
      → get_elem? w.pending i ≡ some c
      → c.session ≡ s
      → c.io_type ≡ io_send
      → n ≤ c.len
      → send_completion s n (record w { pending = remove_at w.pending i }) ≡ some (tt, w')
      → Run s w' accepted (sent ++ wire (w.session s).send_buffer c n)

-- Of a session and its sends.
pub record InOrder (c : Session) (cs : List IoContext) (accepted sent : List ℕ) : Type 0 where
  pub valid : IsValid c.send_buffer
  pub open_still : c.connected ≡ true
  pub flight : Flight c.send_buffer cs c.send_pending_count
  pub stream : accepted ≡ sent ++ contents c.send_buffer

InOrder-at :
    {c c' : Session} {cs cs' : List IoContext} {accepted sent : List ℕ}
    → c' ≡ c
    → cs' ≡ cs
    → InOrder c cs accepted sent
    → InOrder c' cs' accepted sent
InOrder-at {c = c} {cs' = cs'} {accepted = accepted} {sent = sent} e e' o =
    subst (λ x. InOrder x cs' accepted sent) (sym e)
      (subst (λ x. InOrder c x accepted sent) (sym e') o)

module _ (s : ℕ) (w w' : Sessions) (accepted sent : List ℕ)
    (o : InOrder (w.session s) (sends s w.pending) accepted sent) where
  abbrev front : CircularBuffer
  front = (w.session s).send_buffer

  refused-InOrder :
      InOrder
        (record (w.session s) { send_buffer = (get_free_space_size front).1 })
        (sends s w.pending)
        accepted
        sent
  refused-InOrder = record {
    valid = get_free_space_size-IsValid front o.valid;
    open_still = o.open_still;
    flight =
        let (e, e') = scan_keeps_front front in
        Flight-move (get_free_space_size front).1 o.flight e (omega (arith, e'));
    stream = o.stream ∙ ap (λ q. sent ++ q) (sym (contents-get_free_space_size front o.valid));
  }

  stored-InOrder :
      (data_bytes : List ℕ)
      → length data_bytes ≤ (get_free_space_size front).0
      → InOrder
          (record (w.session s) { send_buffer = store (get_free_space_size front).1 data_bytes })
          (sends s w.pending)
          (accepted ++ data_bytes)
          sent
  stored-InOrder data_bytes fits = record {
    valid = store-IsValid front data_bytes o.valid fits;
    open_still = o.open_still;
    flight =
        let (e, le) = store_keeps_front front data_bytes o.valid fits in
        Flight-move (store (get_free_space_size front).1 data_bytes) o.flight e le;
    stream =
        ap (λ q. q ++ data_bytes) o.stream
        ∙ append_assoc sent (contents front) data_bytes
        ∙ ap (λ q. sent ++ q) (sym (contents-store front data_bytes o.valid fits));
  }

  posting-InOrder :
      (data_bytes : List ℕ) (r : Bool)
      → post_send s data_bytes w ≡ some (r, w')
      → InOrder
          (w'.session s)
          (sends s w'.pending)
          (if r then accepted ++ data_bytes else accepted)
          sent
  posting-InOrder data_bytes r e = elim (posted s w w' o.open_still data_bytes r e) [
    | inl (declined, now, same) ↦ rw declined (InOrder-at now (ap (sends s) same) refused-InOrder)
    | inr (agreed, fits, now, same) ↦
        rw agreed (InOrder-at now (ap (sends s) same) (stored-InOrder data_bytes fits))
  ]

  none_pending :
      {b : CircularBuffer} {cs : List IoContext} {n : ℕ} → Flight b cs n → n ≡ 0 → cs ≡ []
  none_pending landed e = refl
  none_pending (flying c at fits) e = absurd (omega arith)

  flushing-InOrder :
      (d r : Bool)
      → flush_send s true d w ≡ some (r, w')
      → InOrder (w'.session s) (sends s w'.pending) accepted sent
  flushing-InOrder d r e = elim (flushed s w w' o.open_still d r (few_pending o.flight) e) [
    | inl (now, same) ↦ InOrder-at now (ap (sends s) same) o
    | inr (idle, now, some_bytes, same) ↦
        InOrder-at now
          (ap (sends s) same ∙ launched_alone s w.pending front (none_pending o.flight idle))
          record {
            valid = o.valid;
            open_still = o.open_still;
            flight = launched-Flight s front o.valid some_bytes;
            stream = o.stream;
          }
  ]

  completing-InOrder :
      (i n : ℕ) (c : IoContext)
      → get_elem? w.pending i ≡ some c
      → c.session ≡ s
      → c.io_type ≡ io_send
      → n ≤ c.len
      → send_completion s n (record w { pending = remove_at w.pending i }) ≡ some (tt, w')
      → InOrder (w'.session s) (sends s w'.pending) accepted (sent ++ wire front c n)
  completing-InOrder i n c at own kind le e =
      let (now, same) = completed s w w' o.open_still n i e in
      let (alone, gone) = one_send s w.pending i c at own kind (few_sends o.flight) in
      let (count, from, fits) = flown c o.flight alone in
      InOrder-at now (ap (sends s) same ∙ gone) record {
        valid = remove-IsValid front n o.valid;
        open_still = o.open_still;
        flight = rw count landed;
        stream =
            o.stream
            ∙ ap (λ q. sent ++ q) (contents-wire front c n o.valid from fits le)
            ∙ sym (append_assoc sent (wire front c n) (contents (remove front n)));
      }

Run-InOrder :
    {s : ℕ} {w : Sessions} {accepted sent : List ℕ}
    → Run s w accepted sent
    → InOrder (w.session s) (sends s w.pending) accepted sent
Run-InOrder {s} (connected w v nothing on idle none_yet) = record {
  valid = v;
  open_still = on;
  flight = rw (idle, none_yet) landed;
  stream = sym nothing;
}
Run-InOrder {s} (posting data_bytes b r e) =
    posting-InOrder s _ _ _ _ (Run-InOrder r) data_bytes b e
Run-InOrder {s} (flushing d b r e) = flushing-InOrder s _ _ _ _ (Run-InOrder r) d b e
Run-InOrder {s} (completing i c n r at own kind le e) =
    completing-InOrder s _ _ _ _ (Run-InOrder r) i n c at own kind le e

-- While a session is connected and its sends start, in any order of posts, flushes and completions
-- (partial ones too), the bytes that were accepted are those that the kernel has read, followed by
-- those that the send buffer holds: nothing is lost, doubled, changed or reordered.
pub Run-stream :
    {s : ℕ} {w : Sessions} {accepted sent : List ℕ}
    → Run s w accepted sent
    → accepted ≡ sent ++ contents (w.session s).send_buffer
Run-stream r = (Run-InOrder r).stream

-- On such a run the kernel has at most one send of the session, and `mSendPendingCount` counts it.
pub Run-one_send :
    {s : ℕ} {w : Sessions} {accepted sent : List ℕ}
    → Run s w accepted sent
    → (length (sends s w.pending) ≡ (w.session s).send_pending_count)
      × ((w.session s).send_pending_count ≤ 1)
Run-one_send {s} {w} r =
    let o : InOrder (w.session s) (sends s w.pending) _ _ = Run-InOrder r in
    (counted o.flight, few_pending o.flight)
