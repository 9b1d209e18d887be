-- ===== src/DummyClients/Preparing.antt =====
-- The main thread's first calls: `PrepareClientSessions`, and then `ConnectSessions`.
use mathlib.Core.List.{append-nil, append_assoc}
use gsp.Prelude.{
  ℕ, zero, suc, ◌+◌, ◌≤◌, ◌<◌, ◌≡◌, refl, sym, ap, ◌∙◌, inl, inr, Bool, true, some, List, [], ◌∷◌,
  ◌++◌, arith, In, Distinct, subst, ℕ_discrete,
}
use gsp.CircularBuffer.Memory.{Bytes}
use gsp.DummyClients.State.{thread_main, DummyClientSession, Clients, ◌>>=◌, update}
use gsp.DummyClients.{new_session}
use gsp.DummyClients.Connect.{
  prepare_session, prepare_from, prepare_client_sessions, connect_sessions,
}
use gsp.DummyClients.Connecting.{Unconnected, with_gained, posted, connect_sessions-refs}

-- `n` numbers from `i` on.
abbrev pub from : ℕ → ℕ → List ℕ
from i zero = []
from i (suc n) = i ∷ from (i + 1) n

pub In-from : (t i n : ℕ) → In t (from i n) → (i ≤ t) × (t < i + n)
In-from t i zero j = absurd j
In-from t i (suc n) (inl e) = (omega arith, omega arith)
In-from t i (suc n) (inr j) = let b = In-from t (i + 1) n j in (omega (arith, b), omega (arith, b))

pub from-In : (t i n : ℕ) → i ≤ t → t < i + n → In t (from i n)
from-In t i zero le lt = absurd (omega arith)
from-In t i (suc n) le lt = elim (ℕ_discrete i t) [
  | yes e ↦ inl e
  | no ne ↦ inr (from-In t (i + 1) n (omega arith) (omega arith))
]

pub from-Distinct : (i n : ℕ) → Distinct (from i n)
from-Distinct i zero = tt
from-Distinct i (suc n) = ((λ j. omega (arith, In-from i (i + 1) n j)), from-Distinct (i + 1) n)

abbrev made : (ℕ → Bytes × Bytes) → ℕ → DummyClientSession
made storage i = new_session (storage i).0 (storage i).1

prepare_all :
    (storage : ℕ → Bytes × Bytes) (prepared : ℕ → Bool × Bool) (n i : ℕ) (w : Clients)
    → ((t : ℕ) → t < i + n → prepare_session (prepared t).0 (prepared t).1 ≡ true)
    → (w' : Clients) × (prepare_from storage prepared n i w ≡ some (true, w'))
      × (w'.ready_sessions ≡ w.ready_sessions ++ from i n)
      × ((t : ℕ) → i ≤ t → t < i + n → w'.session t ≡ made storage t)
      × ((t : ℕ) → t < i → w'.session t ≡ w.session t)
      × ((t : ℕ) → i + n ≤ t → w'.session t ≡ w.session t)
      × (w'.pending ≡ w.pending)
unfolding prepare_from
prepare_all storage prepared zero i w ok = (
  w,
  refl,
  sym (append-nil w.ready_sessions),
  (λ t le lt. absurd (omega arith)),
  (λ t lt. refl),
  (λ t ge. refl),
  refl,
)
prepare_all storage prepared (suc n) i w ok =
    let w₁ : Clients = record w {
      session = update w.session i (made storage i);
      ready_sessions = w.ready_sessions ++ (i ∷ []);
    } in
    let (w', e, ready, new, old, beyond, pending) =
      prepare_all storage prepared n (i + 1) w₁ (λ t lt. ok t (omega arith)) in
    (
      w',
      ground (arith, e, ok i (omega arith)),
      ready ∙ append_assoc w.ready_sessions (i ∷ []) (from (i + 1) n),
      (λ t le lt. elim (ℕ_discrete i t) [
        | yes q ↦ subst (λ k. w'.session k ≡ made storage k) q (old i (omega arith) ∙ ground arith)
        | no ne ↦ new t (omega arith) (omega arith)
      ]),
      (λ t lt. old t (omega arith) ∙ ground arith),
      (λ t ge. beyond t (omega arith) ∙ ground arith),
      pending,
    )

-- For a manager with no sessions yet and any number of connections, where every session can be
-- bound and registered: `PrepareClientSessions` by the main thread and then `ConnectSessions`
-- return true whatever ConnectEx answers, each session is as it is made but for its references, its
-- own and one of its connect if that started, no other session is changed, and the kernel has a
-- connect of exactly those that started.
pub prepare-connect :
    (max_connection : ℕ) (storage : ℕ → Bytes × Bytes) (prepared : ℕ → Bool × Bool)
    (started : ℕ → Bool) (w : Clients)
    → w.ready_sessions ≡ []
    → ((t : ℕ) → t < max_connection → prepare_session (prepared t).0 (prepared t).1 ≡ true)
    → (w' : Clients) × ((prepare_client_sessions thread_main max_connection storage prepared
            >>= λ _. connect_sessions started)
          w
        ≡ some (true, w'))
      × ((t : ℕ)
          → t < max_connection
          → w'.session t ≡ with_gained (started t) (new_session (storage t).0 (storage t).1))
      × ((t : ℕ) → max_connection ≤ t → w'.session t ≡ w.session t)
      × (w'.pending ≡ posted started (from 0 max_connection) w.pending)
unfolding prepare_client_sessions new_session
prepare-connect max_connection storage prepared started w none_yet ok =
    let (w₁, e, ready, new, _, beyond, pending) =
      prepare_all storage prepared max_connection 0 w (λ t lt. ok t (omega arith)) in
    let all : w₁.ready_sessions ≡ from 0 max_connection =
      ready ∙ ap (λ l. l ++ from 0 max_connection) none_yet in
    let (w', e', here, others, pending') =
      connect_sessions-refs started w₁ (subst Distinct (sym all) (from-Distinct 0 max_connection))
        λ t i.
          let b = In-from t 0 max_connection (subst (In t) all i) in
          subst Unconnected (sym (new t (omega arith) (omega (arith, b)))) (refl, omega arith) in
    (
      w',
      ground (arith, e, e'),
      (λ t lt.
          here t (subst (In t) (sym all) (from-In t 0 max_connection (omega arith) (omega arith)))
          ∙ ap (with_gained (started t)) (new t (omega arith) (omega arith))),
      (λ t ge.
          others t (λ i. omega (arith, In-from t 0 max_connection (subst (In t) all i), ge))
          ∙ beyond t (omega arith)),
      pending'
          ∙ ap (posted started w₁.ready_sessions) pending
          ∙ ap (λ l. posted started l w.pending) all,
    )
