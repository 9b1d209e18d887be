-- ===== src/Session/SendJob.antt =====
-- `IOThread::DoSendJob` of Homework6/EduServer_IOCP: when its loop ends and when it does not.
use gsp.Prelude.{
  ℕ, zero, suc, ◌+◌, ◌≤◌, ◌<◌, ◌≡◌, ◌≢◌, refl, sym, ◌∙◌, inl, inr, Bool, true, false, none, some,
  List, [], ◌∷◌, arith, length, drop, Option-cases, long_limit, In, Distinct, subst, ap,
}
use gsp.Session.State.{Session, Sessions}
use gsp.Session.{
  add_ref, release_ref, new_context, delete_io_context, submit, disconnect_request, flush_send,
  count_send, do_send_job,
}

-- A session whose flush ends the wait for it: if it is connected, no send is pending, and its count
-- of references has room.
abbrev pub Ready : Session → Type 0
Ready c =
    c.connected ≡ true
    → (c.send_pending_count ≡ 0) × (1 ≤ c.ref_count) × (c.ref_count + 2 < long_limit)

-- The requests and the other sessions are as they were.
abbrev Leaves : ℕ → Sessions → Sessions → Type 0
Leaves s w w' = (w'.requests ≡ w.requests) × ((t : ℕ) → t ≢ s → w'.session t ≡ w.session t)

flush_result :
    (s : ℕ) (w : Sessions) (started d : Bool)
    → flush_send s started d w ≢ none
    → ((b : Bool) (w' : Sessions)
        → flush_send s started d w ≡ some (b, w')
        → (b ≡ true) × (w'.requests ≡ w.requests) × ((t : ℕ) → t ≢ s → w'.session t ≡ w.session t))
    → (w' : Sessions) × (flush_send s started d w ≡ some (true, w')) × Leaves s w w'
flush_result s w started d runs result = elim (Option-cases (flush_send s started d w)) [
  | inl e ↦ absurd (runs e)
  | inr ((b, w'), e) ↦
      let (yes_it_is, same, others) = result b w' e in
      (w', e ∙ ap (λ x. some (x, w')) yes_it_is, (same, others))
]

flush-Ready :
    (s : ℕ) (w : Sessions) (started d : Bool)
    → Ready (w.session s)
    → (w' : Sessions) × (flush_send s started d w ≡ some (true, w')) × Leaves s w w'
unfolding flush_send new_context add_ref submit count_send disconnect_request delete_io_context
    release_ref
flush-Ready s w started d ready =
    flush_result s w started d (ground (arith, ready)) λ b w' e. ground (arith, ready)

-- The flush of a connected session with a send pending changes nothing.
stuck :
    (s : ℕ) (w : Sessions) (started d : Bool)
    → (w.session s).connected ≡ true
    → 0 < (w.session s).send_pending_count
    → (w.session s).send_pending_count < long_limit
    → flush_send s started d w ≡ some (false, w)
unfolding flush_send
stuck s w started d on some_pending small = ground arith

-- With a connected session that has a send pending at the front of the requests, `DoSendJob` ends
-- in no number of rounds, as long as no other thread changes the session.
pub do_send_job_spins :
    (started d : ℕ → Bool) (fuel : ℕ) (s : ℕ) (rest : List ℕ) (w : Sessions)
    → w.requests ≡ s ∷ rest
    → (w.session s).connected ≡ true
    → 0 < (w.session s).send_pending_count
    → (w.session s).send_pending_count < long_limit
    → do_send_job started d fuel w ≡ none
unfolding do_send_job
do_send_job_spins started d zero s rest w e on some_pending small = refl
do_send_job_spins started d (suc f) s rest w e on some_pending small = ground (
  arith,
  e,
  stuck s w (started f) (d f) on some_pending small,
  do_send_job_spins started d f s rest w e on some_pending small,
)

-- If no session is in the requests twice, and those that are connected have no send pending, a
-- reference, and room for two more, then one more round than there are requests is enough for
-- `DoSendJob` to end, whatever the calls answer, and it leaves no requests.
pub do_send_job_ends :
    (started d : ℕ → Bool) (fuel : ℕ) (rest : List ℕ) (w : Sessions)
    → w.requests ≡ rest
    → length rest < fuel
    → Distinct rest
    → ((t : ℕ) → In t rest → Ready (w.session t))
    → (w' : Sessions) × (do_send_job started d fuel w ≡ some (tt, w')) × (w'.requests ≡ [])
unfolding do_send_job
do_send_job_ends started d zero rest w e enough distinct ready = absurd (omega arith)
do_send_job_ends started d (suc f) [] w e enough distinct ready = (w, ground arith, e)
do_send_job_ends started d (suc f) (s ∷ rest) w e enough distinct ready =
    let (w', flushed, (same, others)) = flush-Ready s w (started f) (d f) (ready s (inl refl)) in
    let w'' : Sessions = record w' { requests = drop 1 w'.requests } in
    let (end, ended, nothing) =
      do_send_job_ends started d f rest w'' (ground arith) (omega arith) distinct.1 (λ t i.
        subst Ready (sym (others t (λ q. distinct.0 (subst (λ k. In k rest) q i))))
          (ready t (inr i))) in
    (end, ground (arith, flushed, e), nothing)
