-- ===== src/DummyClients/Connecting.antt =====
-- `ConnectSessions` over all the sessions of the manager.
use gsp.Prelude.{
  ℕ, ◌+◌, ◌-◌, ◌<◌, ◌≡◌, ◌≢◌, refl, sym, ap, ◌∙◌, inl, inr, Bool, true, false, none, some, List, [],
  ◌∷◌, arith, if◌then◌else◌, long_limit, In, Distinct, subst, Option-cases,
}
use gsp.DummyClients.State.{
  io_connect, IoContext, DummyClientSession, Clients, M, pure, ◌>>=◌, ◌>>◌, update,
}
use gsp.DummyClients.{add_ref, release_ref, new_context, delete_io_context, submit}
use gsp.DummyClients.Connect.{connect_request, connect_each, connect_sessions}

-- Not connected yet, with room for the two references.
abbrev pub Unconnected : DummyClientSession → Type 0
Unconnected c = (c.connected ≡ false) × (c.ref_count + 2 < long_limit)

abbrev connect_context : ℕ → IoContext
connect_context s = record { session = s; io_type = io_connect; len = 0; buf = none }

-- The references that a session gets.
abbrev pub gained : Bool → ℕ
gained true = 2
gained false = 1

abbrev pub with_gained : Bool → DummyClientSession → DummyClientSession
with_gained started c = record c { ref_count = c.ref_count + gained started }

-- The contexts of the connects that started, the last one first.
abbrev pub posted : (ℕ → Bool) → List ℕ → List IoContext → List IoContext
posted started [] pending = pending
posted started (s ∷ ss) pending =
    posted started ss (if started s then connect_context s ∷ pending else pending)

abbrev with_refs : ℕ → ℕ → Clients → Clients
with_refs s n w = record w { session = update w.session s (record (w.session s) { ref_count = n }) }

-- One session: a reference of its own, and one of the connect if it started.
connect_one :
    (started : Bool) (s : ℕ) (w : Clients)
    → Unconnected (w.session s)
    → (w' : Clients) × ((add_ref s >>= λ _. connect_request s started) w ≡ some (true, w'))
      × (w'.session s ≡ with_gained started (w.session s))
      × ((t : ℕ) → s ≢ t → w'.session t ≡ w.session t)
      × (w'.pending ≡ (if started then connect_context s ∷ w.pending else w.pending))
      × (w'.ready_sessions ≡ w.ready_sessions)
unfolding add_ref connect_request new_context submit delete_io_context release_ref
connect_one true s w u =
    let w₁ : Clients = with_refs s ((w.session s).ref_count + 1) w in
    let w₂ : Clients = with_refs s ((w₁.session s).ref_count + 1) w₁ in
    (
      record w₂ { pending = connect_context s ∷ w.pending },
      ground (arith, u),
      ground (arith, u),
      λ t ne. ground arith,
      refl,
      refl,
    )
connect_one false s w u =
    let w₁ : Clients = with_refs s ((w.session s).ref_count + 1) w in
    let w₂ : Clients = with_refs s ((w₁.session s).ref_count + 1) w₁ in
    (
      with_refs s ((w₂.session s).ref_count - 1) w₂,
      ground (arith, u),
      ground (arith, u),
      λ t ne. ground arith,
      refl,
      refl,
    )

after_first :
    (m : M (Unit {0})) (f rest : M Bool) (w : Clients) {w₁ w' : Clients}
    → (m >>= λ _. f) w ≡ some (true, w₁)
    → rest w₁ ≡ some (true, w')
    → (m >> (f >>= λ b. if b then rest else pure false)) w ≡ some (true, w')
after_first m f rest w e e' = elim (Option-cases (m w)) [
  | inl q ↦ absurd (ground (arith, e, q))
  | inr ((_, w₀), q) ↦ ground (arith, e, e', q)
]

connect_all :
    (started : ℕ → Bool) (ss : List ℕ) (w : Clients)
    → Distinct ss
    → ((t : ℕ) → In t ss → Unconnected (w.session t))
    → (w' : Clients) × (connect_each started ss w ≡ some (true, w'))
      × ((t : ℕ) → In t ss → w'.session t ≡ with_gained (started t) (w.session t))
      × ((t : ℕ) → ¬ In t ss → w'.session t ≡ w.session t)
      × (w'.pending ≡ posted started ss w.pending)
unfolding connect_each
connect_all started [] w d u = (w, refl, λ t i. absurd i, λ t out. refl, refl)
connect_all started (s ∷ ss) w (out, d) u =
    let (w₁, e, here, others, pending, ready) = connect_one (started s) s w (u s (inl refl)) in
    let apart : (t : ℕ) → In t ss → s ≢ t = λ t i q. out (subst (λ k. In k ss) (sym q) i) in
    let (w', e', in_list, not_in, pending') =
      connect_all started ss w₁ d
        λ t i. subst Unconnected (sym (others t (apart t i))) (u t (inr i)) in
    (
      w',
      after_first (add_ref s) (connect_request s (started s)) (connect_each started ss) w e e',
      λ t i. elim i [
        | inl q ↦
            subst (λ k. w'.session k ≡ with_gained (started k) (w.session k)) q
              (not_in s out ∙ here)
        | inr j ↦ in_list t j ∙ ap (with_gained (started t)) (others t (apart t j))
      ],
      λ t o. not_in t (λ i. o (inr i)) ∙ others t (λ q. o (inl q)),
      pending' ∙ ap (posted started ss) pending,
    )

-- For ready sessions that are distinct and not connected, with fewer than 2 ^ 31 - 2 references:
-- `ConnectSessions` returns true whatever ConnectEx answers, each of them has a reference more, and
-- two where its connect started, no other session is changed, and the kernel has a connect of
-- exactly those that started.
pub connect_sessions-refs :
    (started : ℕ → Bool) (w : Clients)
    → Distinct w.ready_sessions
    → ((t : ℕ) → In t w.ready_sessions → Unconnected (w.session t))
    → (w' : Clients) × (connect_sessions started w ≡ some (true, w'))
      × ((t : ℕ) → In t w.ready_sessions → w'.session t ≡ with_gained (started t) (w.session t))
      × ((t : ℕ) → ¬ In t w.ready_sessions → w'.session t ≡ w.session t)
      × (w'.pending ≡ posted started w.ready_sessions w.pending)
unfolding connect_sessions
connect_sessions-refs started w d u = connect_all started w.ready_sessions w d u
