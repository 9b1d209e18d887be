-- ===== src/DummyClients/Starting.antt =====
-- The dummy clients after their first calls, `PrepareClientSessions` and `ConnectSessions`.
use gsp.Prelude.{
  ℕ, ◌+◌, ◌<◌, ◌≡◌, ◌≢◌, refl, sym, ◌∙◌, ap, subst, inl, inr, Bool, true, false, none, some, List,
  [], ◌∷◌, arith, ltb, if◌then◌else◌, In, Distinct, dec_lt, Bool-cases,
}
use gsp.CircularBuffer.Memory.{Bytes}
use gsp.DummyClients.State.{IoType, io_connect, thread_main, IoContext, Clients, ◌>>=◌}
use gsp.DummyClients.{new_session}
use gsp.DummyClients.Connect.{prepare_session, prepare_client_sessions, connect_sessions}
use gsp.DummyClients.Counting.{
  total, holds, keeps, cycles, sends, total-nil, total_self, total_other,
}
use gsp.DummyClients.References.{IsValid}
use gsp.DummyClients.Connecting.{posted}
use gsp.DummyClients.Preparing.{from, from-Distinct, from-In, In-from, prepare-connect}

-- The program before the first call of its manager.
abbrev pub no_clients : (ℕ → Bytes × Bytes) → Clients
no_clients storage = record {
  session = λ i. new_session (storage i).0 (storage i).1;
  ready_sessions = [];
  current_connect_count = 0;
  current_return_count = 0;
  total_session_send = 0;
  total_session_recv = 0;
  pending = [];
  requests = [];
}

abbrev connect_context : ℕ → IoContext
connect_context s = record { session = s; io_type = io_connect; len = 0; buf = none }

module _ (k : IoType → ℕ) where
  first_other :
      (s t : ℕ) (b : Bool) (cs : List IoContext)
      → s ≢ t
      → total k t (if b then connect_context s ∷ cs else cs) ≡ total k t cs
  first_other s t true cs ne = total_other k t (connect_context s) cs ne
  first_other s t false cs ne = refl

  first_self :
      (s : ℕ) (b : Bool) (cs : List IoContext)
      → total k s (if b then connect_context s ∷ cs else cs)
        ≡ (if b then k io_connect else 0) + total k s cs
  first_self s true cs = total_self k s (connect_context s) cs refl
  first_self s false cs = omega arith

  total-posted_other :
      (started : ℕ → Bool) (t : ℕ) (ss : List ℕ) (cs : List IoContext)
      → ¬ In t ss
      → total k t (posted started ss cs) ≡ total k t cs
  total-posted_other started t [] cs out = refl
  total-posted_other started t (s ∷ ss) cs out =
      total-posted_other started t ss (if started s then connect_context s ∷ cs else cs)
        (λ i. out (inr i))
      ∙ first_other s t (started s) cs (λ q. out (inl q))

  total-posted_once :
      (started : ℕ → Bool) (t : ℕ) (ss : List ℕ) (cs : List IoContext)
      → Distinct ss
      → In t ss
      → total k t (posted started ss cs) ≡ (if started t then k io_connect else 0) + total k t cs
  total-posted_once started t [] cs d i = absurd i
  total-posted_once started t (s ∷ ss) cs (out, d) (inl q) =
      subst
        (λ x.
          total k x (posted started ss (if started s then connect_context s ∷ cs else cs))
          ≡ (if started x then k io_connect else 0) + total k x cs)
        q
        (total-posted_other started s ss (if started s then connect_context s ∷ cs else cs) out
          ∙ first_self s (started s) cs)
  total-posted_once started t (s ∷ ss) cs (out, d) (inr i) =
      total-posted_once started t ss (if started s then connect_context s ∷ cs else cs) d i
      ∙ ap (λ n. (if started t then k io_connect else 0) + n)
          (first_other s t (started s) cs (λ q. out (subst (λ x. In x ss) (sym q) i)))

-- The sessions of the manager are out.
abbrev pub first_issued : ℕ → ℕ → ℕ
first_issued max_connection t = if ltb t max_connection then 1 else 0

pub start-IsValid :
    (max_connection : ℕ) (storage : ℕ → Bytes × Bytes) (prepared : ℕ → Bool × Bool)
    (started : ℕ → Bool)
    → ((t : ℕ) → t < max_connection → prepare_session (prepared t).0 (prepared t).1 ≡ true)
    → (w : Clients) × ((prepare_client_sessions thread_main max_connection storage prepared >>= λ _.
            connect_sessions started)
          (no_clients storage)
        ≡ some (true, w))
      × IsValid w (first_issued max_connection)
unfolding new_session
start-IsValid max_connection storage prepared started ok =
    let (w, e, made, beyond, pending) =
      prepare-connect max_connection storage prepared started (no_clients storage) refl ok in
    (
      w,
      e,
      λ t. elim (dec_lt t max_connection) [
        | yes lt ↦
            let count : (k : IoType → ℕ)
                → total k t w.pending ≡ (if started t then k io_connect else 0) =
              λ k.
                ap (total k t) pending
                ∙ total-posted_once k started t (from 0 max_connection) []
                    (from-Distinct 0 max_connection)
                    (from-In t 0 max_connection (omega arith) (omega arith))
                ∙ omega (arith, total-nil k t) in
            elim (Bool-cases (started t)) [
              | inl on ↦
                  ground
                    (arith, made t lt, lt, on, count holds, count keeps, count cycles, count sends)
              | inr off ↦
                  ground
                    (arith, made t lt, lt, off, count holds, count keeps, count cycles, count sends)
            ]
        | no ge ↦
            let count : (k : IoType → ℕ) → total k t w.pending ≡ 0 = λ k.
              ap (total k t) pending
              ∙ total-posted_other k started t (from 0 max_connection) []
                  (λ i. omega (arith, In-from t 0 max_connection i))
              ∙ total-nil k t in
            ground (
              arith,
              beyond t (omega arith),
              ge,
              count holds,
              count keeps,
              count cycles,
              count sends,
            )
      ],
    )
