-- ===== src/Session/Outcomes.antt =====
-- What `PostSend`, `FlushSend` and `SendCompletion` do to a connected session, from their results.
use gsp.Prelude.{
  ℕ, ◌+◌, ◌-◌, ◌%◌, ◌^◌, ◌≤◌, ◌<◌, ◌≡◌, ◌⊎◌, inl, inr, Bool, true, false, some, List, ◌∷◌, arith,
  length, dec_lt,
}
use gsp.CircularBuffer.{CircularBuffer, get_free_space_size, get_contiguious_bytes, remove}
use gsp.CircularBuffer.Queue.{store}
use gsp.Session.State.{Sessions}
use gsp.Session.{post_send, flush_send, send_completion, new_context, add_ref, submit, count_send}
use gsp.Session.Flight.{remove_at, launched}

-- `PostSend` changes the session's send buffer, by what it accepts.
module _ (s : ℕ) (w w' : Sessions) (on : (w.session s).connected ≡ true) where
  abbrev b : CircularBuffer
  b = (w.session s).send_buffer

  pub posted :
      (data_bytes : List ℕ) (r : Bool)
      → post_send s data_bytes w ≡ some (r, w')
      → ((r ≡ false)
          × (w'.session s ≡ record (w.session s) { send_buffer = (get_free_space_size b).1 })
          × (w'.pending ≡ w.pending))
        ⊎ ((r ≡ true)
            × (length data_bytes ≤ (get_free_space_size b).0)
            × (w'.session s
                ≡ record (w.session s) { send_buffer = store (get_free_space_size b).1 data_bytes })
            × (w'.pending ≡ w.pending))
  unfolding post_send
  posted data_bytes r e = elim (dec_lt (get_free_space_size b).0 (length data_bytes)) [
    | yes lt ↦ inl (ground arith, ground arith, ground arith)
    | no ge ↦ inr (ground arith, omega arith, ground arith, ground arith)
  ]

  pub flushed :
      (d r : Bool)
      → (w.session s).send_pending_count ≤ 1
      → flush_send s true d w ≡ some (r, w')
      → ((w'.session s ≡ w.session s) × (w'.pending ≡ w.pending))
        ⊎ (((w.session s).send_pending_count ≡ 0)
            × (w'.session s ≡ record (w.session s) {
              send_pending_count = 1;
              ref_count = (w.session s).ref_count + 1;
            })
            × (0 < get_contiguious_bytes b)
            × (w'.pending ≡ launched s b ∷ w.pending))
  unfolding flush_send new_context add_ref submit count_send
  flushed d r le e = ground arith

  pub completed :
      (n i : ℕ)
      → send_completion s n (record w { pending = remove_at w.pending i }) ≡ some (tt, w')
      → (w'.session s ≡ record (w.session s) {
        send_buffer = remove b n;
        send_pending_count = ((w.session s).send_pending_count + (2 ^ 32 - 1)) % 2 ^ 32;
      })
        × (w'.pending ≡ remove_at w.pending i)
  unfolding send_completion
  completed n i e = ground arith
