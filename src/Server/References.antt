-- ===== src/Server/References.antt =====
-- `AddRef`, `ReleaseRef` and `DeleteIoContext` keep the reference counts, and none of their
-- assertions fails.
use gsp.Prelude.{
  ℕ, ◌+◌, ◌-◌, ◌≤◌, ◌<◌, ◌≡◌, refl, sym, inl, inr, Bool, true, false, Option, some, ◌∷◌, arith,
  subst, sub_u64, add_u64, In, length_of_Distinct, ℕ_discrete,
}
use gsp.Server.State.{IoType, IoContext, Server, max_connection, update}
use gsp.Server.Counting.{total, holds}
use gsp.Server.{
  add_ref, release_ref, return_client_session, session_reset, new_context, delete_io_context,
  submit, post,
}
use gsp.Server.Invariant.{
  Facts, IsValid, Handling, Room, with_session, Handling-put, Handling-start, few_refs,
}

abbrev with_refs : Server → ℕ → ℕ → Server
with_refs w s n = with_session w s (record (w.session s) { ref_count = n })

pub add_ref-Handling :
    {w : Server} {issued : ℕ → ℕ} {s extra : ℕ}
    → Handling w issued s extra
    → extra ≤ 2
    → let w' = with_refs w s ((w.session s).ref_count + 1) in
      (add_ref s w ≡ some (tt, w')) × Handling w' issued s (extra + 1)
unfolding add_ref
add_ref-Handling {w} {issued} {s} {extra} h le = (
  ground (arith, few_refs s extra h.here),
  Handling-put (record (w.session s) { ref_count = (w.session s).ref_count + 1 }) (extra + 1) h
      (omega (arith, h.here.refs)) h.here.owner,
)

-- A release that leaves a reference.
pub release_ref-Handling :
    {w : Server} {issued : ℕ → ℕ} {s : ℕ} (extra : ℕ)
    → Handling w issued s (extra + 1)
    → 1 ≤ total holds s w.pending + issued s + extra
    → let w' = with_refs w s ((w.session s).ref_count - 1) in
      (release_ref s w ≡ some (tt, w')) × Handling w' issued s extra
unfolding release_ref
release_ref-Handling {w} {issued} {s} extra h more = (
  ground (arith, h.here.refs),
  Handling-put (record (w.session s) { ref_count = (w.session s).ref_count - 1 }) extra h
      (omega (arith, h.here.refs)) h.here.owner,
)

pub Handling-done : {w : Server} {issued : ℕ → ℕ} {s : ℕ} → Handling w issued s 0 → IsValid w issued
Handling-done {w} {issued} {s} h = record {
  facts = λ t. elim (ℕ_discrete t s) [
    | yes e ↦ subst (λ k. Facts w issued k 0) (sym e) h.here
    | no ne ↦ h.others t ne
  ];
  free = h.free;
}

-- A session that is out leaves room in the free list.
counts_out :
    {w : Server} {issued : ℕ → ℕ} {s extra : ℕ}
    → Handling w issued s extra
    → 1 ≤ sub_u64 w.issue_count w.return_count
counts_out {w} {issued} {s} h = omega (
  arith,
  length_of_Distinct max_connection (s ∷ w.free_sessions) (h.out, h.free.distinct)
      (λ a i. below a i),
  h.free.counted,
)
  where
    below : (a : ℕ) → In a (s ∷ w.free_sessions) → a < max_connection
    below a (inl e) = subst (λ k. k < max_connection) e h.bound
    below a (inr i) = h.free.bounded a i

-- The session as it goes back to the free list.
abbrev returned : Server → ℕ → Server
returned w s = record w {
  session =
      update (with_refs w s 0).session s (session_reset (record (w.session s) { ref_count = 0 }));
  free_sessions = s ∷ w.free_sessions;
  return_count = add_u64 w.return_count 1;
}

module _ {w : Server} {issued : ℕ → ℕ} {s : ℕ} (h : Handling w issued s 1)
    (last : total holds s w.pending + issued s ≡ 0) where
  release_ref_returns : release_ref s w ≡ some (tt, returned w s)
  unfolding release_ref return_client_session
  release_ref_returns = ground (arith, h.here.refs, h.here.owner)

  returned_here : Facts (returned w s) issued s 0
  unfolding session_reset
  returned_here = ground (arith, h.here)

  returned-IsValid : IsValid (returned w s) issued
  unfolding session_reset
  returned-IsValid = record {
    facts = λ t. elim (ℕ_discrete t s) [
      | yes e ↦ subst (λ k. Facts (returned w s) issued k 0) (sym e) returned_here
      | no ne ↦ ground (arith, h.others t ne)
    ];
    free = record {
      unused = λ t i. elim (ℕ_discrete s t) [
        | yes e ↦ ground arith
        | no ne ↦ elim i [ inl e ↦ absurd (ne e) | inr j ↦ ground (arith, h.free.unused t j) ]
      ];
      distinct = (h.out, h.free.distinct);
      bounded = λ t i. elim i [
        | inl e ↦ subst (λ k. k < max_connection) e h.bound
        | inr j ↦ h.free.bounded t j
      ];
      counted = omega (arith, h.free.counted, counts_out h);
      words = (h.free.words.0, omega arith);
    };
  }

-- The last reference that a handler gives up: the session may go back to the free list.
pub release_ref-IsValid :
    {w : Server} {issued : ℕ → ℕ} {s : ℕ}
    → Handling w issued s 1
    → (w' : Server) × (release_ref s w ≡ some (tt, w')) × IsValid w' issued
release_ref-IsValid {w} {issued} {s} h = elim (ℕ_discrete (total holds s w.pending + issued s) 0) [
  | yes last ↦ (returned w s, release_ref_returns h last, returned-IsValid h last)
  | no more ↦
      let (e, h') = release_ref-Handling 0 h (omega arith) in
      (with_refs w s ((w.session s).ref_count - 1), e, Handling-done h')
]

-- The counters of the manager are as they were.
abbrev pub SameCounts : Server → Server → Type 0
SameCounts w w' = (w'.issue_count ≡ w.issue_count) × (w'.return_count ≡ w.return_count)

-- A context for an operation of the session: with the kernel if the operation started, and deleted
-- if not.
pub post-Handling :
    {w : Server} {issued : ℕ → ℕ} {s : ℕ} (extra : ℕ) (io_type : IoType) (len : ℕ) (buf : Option ℕ)
    (started : Bool)
    → Handling w issued s extra
    → extra ≤ 1
    → 1 ≤ issued s + extra
    → Room w issued s io_type
    → (w' : Server) × (post s io_type len buf started w ≡ some (started, w'))
      × Handling w' issued s extra
      × SameCounts w w'
unfolding post new_context submit delete_io_context
post-Handling {w} {issued} {s} extra io_type len buf true h le some_ref room =
    let (e, h') = add_ref-Handling h (omega arith) in
    let c : IoContext = record { session = s; io_type = io_type; len = len; buf = buf } in
    let w' : Server = with_refs w s ((w.session s).ref_count + 1) in
    (
      record w' { pending = c ∷ w.pending },
      ground arith,
      Handling-start c extra refl (room.0, ground (arith, room.1)) h',
      (refl, refl),
    )
post-Handling {w} {issued} {s} extra io_type len buf false h le some_ref room =
    let (e, h') = add_ref-Handling h (omega arith) in
    let w' : Server = with_refs w s ((w.session s).ref_count + 1) in
    let (e', h'') = release_ref-Handling extra h' (omega arith) in
    (with_refs w' s ((w'.session s).ref_count - 1), ground arith, h'', (refl, refl))
