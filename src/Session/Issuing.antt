-- ===== src/Session/Issuing.antt =====
-- `PrepareClientSessions` of Homework6/EduServer_IOCP/ClientSessionManager.cpp, a round of its
-- `AcceptClientSessions`, and the reference counts.
use gsp.Prelude.{
  ℕ, zero, suc, ◌+◌, ◌<◌, ◌≡◌, refl, sym, inl, inr, Bool, none, some, List, [], ◌∷◌, arith, In,
  Distinct, subst, add_u64,
}
use gsp.CircularBuffer.Memory.{Bytes}
use gsp.Database.State.{thread_main}
use gsp.Session.State.{io_accept, Player, Sessions, update}
use gsp.Session.{add_ref}
use gsp.Session.Accepting.{
  max_connection, new_session, pushed_sessions, prepare_client_sessions, pop_session, issue_session,
  post_accept,
}
use gsp.Session.Counting.{
  holds, keeps, cycles, sends, connects, jobs_of, total-nil, total-cycles-le,
}
use gsp.Session.References.{IsValid, Handling, with_session}
use gsp.Session.Handlers.{post-Handling}

pushed_lt : (n t : ℕ) → In t (pushed_sessions n) → t < n
unfolding pushed_sessions
pushed_lt zero t i = absurd i
pushed_lt (suc n) t (inl e) = omega arith
pushed_lt (suc n) t (inr i) = omega (arith, pushed_lt n t i)

pushed-Distinct : (n : ℕ) → Distinct (pushed_sessions n)
unfolding pushed_sessions
pushed-Distinct zero = tt
pushed-Distinct (suc n) = ((λ i. omega (arith, pushed_lt n n i)), pushed-Distinct n)

abbrev pub prepared : (ℕ → Bytes × Bytes) → Player → Sessions
prepared storage unset = record {
  session = λ s. new_session (storage s).0 (storage s).1 unset;
  free_sessions = pushed_sessions max_connection;
  issue_count = 0;
  return_count = 0;
  pending = [];
  requests = [];
  jobs = [];
  next_pid = 101;
}

pub prepare-IsValid :
    (storage : ℕ → Bytes × Bytes) (unset : Player)
    → (prepare_client_sessions thread_main storage unset ≡ some (prepared storage unset))
      × IsValid (prepared storage unset) (λ _. 0)
unfolding prepare_client_sessions new_session jobs_of
prepare-IsValid storage unset = (
  refl,
  λ t. record {
    refs = omega (arith, total-nil holds t);
    once = omega arith;
    owner = omega (arith, total-nil keeps t);
    cycle = omega (arith, total-nil cycles t);
    sent = omega (arith, total-nil sends t);
    count = omega arith;
    plain = total-nil connects t;
    unused = λ i. refl;
    distinct = pushed-Distinct max_connection;
    few_jobs = omega arith;
  },
)

-- The session at the back of the list is taken, with the reference of its issue.
module _ {w : Sessions} {issued : ℕ → ℕ} (v : IsValid w issued) (s : ℕ) (rest : List ℕ)
    (e : w.free_sessions ≡ s ∷ rest) where
  abbrev popped : Sessions
  popped = record w { free_sessions = rest; issue_count = add_u64 w.issue_count 1 }

  abbrev taken_out : Sessions
  taken_out =
      with_session popped s (record (w.session s) { ref_count = (w.session s).ref_count + 1 })

  not_used : (w.session s).ref_count ≡ 0
  not_used = (v s).unused (subst (λ xs. In s xs) (sym e) (inl refl))

  apart : Distinct (s ∷ rest)
  apart = subst Distinct e (v s).distinct

  pub taken_out-Handling : Handling taken_out (update issued s 1) s 0 0
  taken_out-Handling = record {
    here =
        let f = v s in
        record {
          refs = ground (arith, f.refs, not_used);
          once = ground arith;
          owner = ground (arith, f.refs, f.owner, not_used);
          cycle = f.cycle;
          sent = ground (arith, f.sent);
          count = ground (arith, f.count);
          plain = f.plain;
          unused = λ i. absurd (apart.0 i);
          distinct = apart.1;
          few_jobs = f.few_jobs;
        };
    others = λ t ne.
        let f = v t in
        record {
          refs = ground (arith, f.refs, ne);
          once = ground (arith, f.once, ne);
          owner = ground (arith, f.owner, ne);
          cycle = f.cycle;
          sent = ground (arith, f.sent, ne);
          count = ground (arith, f.count, ne);
          plain = f.plain;
          unused = λ i. ground (arith, f.unused (subst (λ xs. In t xs) (sym e) (inr i)), ne);
          distinct = apart.1;
          few_jobs = f.few_jobs;
        };
  }

  pub issue_session-Handling :
      (started : Bool)
      → (w' : Sessions) × (issue_session thread_main started w ≡ some (started, w'))
        × Handling w' (update issued s 1) s 0 0
  unfolding issue_session pop_session post_accept add_ref
  issue_session-Handling started =
      let f = v s in
      let h = taken_out-Handling in
      let (w', e', h', _) =
        post-Handling 0 0 io_accept 0 none started h (ground arith) (omega arith) (
          omega (arith, f.refs, not_used, total-cycles-le s w.pending),
          ground (arith, f.refs, f.owner, not_used),
          refl,
          ground (arith, f.sent),
        ) in
      (w', ground (arith, e, e', not_used), h')
