-- ===== src/Session/References.antt =====
-- The reference counts of the sessions of Homework6/EduServer_IOCP: who holds a reference, and
-- which sessions are free.
use gsp.Prelude.{
  ℕ, ◌+◌, ◌-◌, ◌^◌, ◌≤◌, ◌≡◌, ◌≢◌, sym, ◌∙◌, some, ◌∷◌, arith, if◌then◌else◌, subst, ℕ_discrete,
  inl, inr, length, In, Distinct, add_u64, List,
}
use gsp.Session.State.{IoType, IoContext, Session, Sessions, update}
use gsp.Session.{add_ref, release_ref, return_client_session, session_reset}
use gsp.Session.Counting.{
  total, holds, keeps, cycles, sends, connects, jobs_of, jobs_of-le, total_self, total_other,
  total-holds-le,
}

-- 1 for a session that is connected.
abbrev pub linked : Session → ℕ
linked c = if c.connected then 1 else 0

-- What holds of the session `t`. `issued t` is 1 from its issue to the completion of its
-- disconnect; `extra` counts the contexts that a handler is working on, `sending` those of a send
-- that are not counted down yet.
pub record Facts (w : Sessions) (issued : ℕ → ℕ) (t extra sending : ℕ) : Type 0 where
  pub refs : (w.session t).ref_count ≡ total holds t w.pending + issued t + jobs_of t w.jobs + extra
  pub once : issued t ≤ 1
  pub owner : linked (w.session t) + total keeps t w.pending ≤ issued t
  pub cycle : total cycles t w.pending ≤ 1
  pub sent : total sends t w.pending + sending ≤ (w.session t).send_pending_count
  pub count : (w.session t).send_pending_count ≤ 1
  pub plain : total connects t w.pending ≡ 0
  pub unused : In t w.free_sessions → (w.session t).ref_count ≡ 0
  pub distinct : Distinct w.free_sessions
  pub few_jobs : length w.jobs ≤ 2 ^ 30

-- Between two rounds.
abbrev pub IsValid : Sessions → (ℕ → ℕ) → Type 0
IsValid w issued = (t : ℕ) → Facts w issued t 0 0

-- While a handler works on the session `s`.
pub record Handling (w : Sessions) (issued : ℕ → ℕ) (s extra sending : ℕ) : Type 0 where
  pub here : Facts w issued s extra sending
  pub others : (t : ℕ) → t ≢ s → Facts w issued t 0 0

abbrev pub with_session : Sessions → ℕ → Session → Sessions
with_session w s c = record w { session = update w.session s c }

-- The other sessions.
Facts_lem :
    {w : Sessions} {issued : ℕ → ℕ} {s : ℕ} (c : Session) (t : ℕ)
    → t ≢ s
    → Facts w issued t 0 0
    → Facts (with_session w s c) issued t 0 0
Facts_lem {w} {issued} {s} c t ne f = record {
  refs = ground (arith, f.refs);
  once = f.once;
  owner = ground (arith, f.owner);
  cycle = f.cycle;
  sent = ground (arith, f.sent);
  count = ground (arith, f.count);
  plain = f.plain;
  unused = λ i. ground (arith, f.unused i);
  distinct = f.distinct;
  few_jobs = f.few_jobs;
}

module _ {w : Sessions} {issued : ℕ → ℕ} {s extra sending : ℕ}
    (h : Handling w issued s extra sending) where
  pub Handling-put :
      (c : Session) (extra' sending' : ℕ)
      → c.ref_count ≡ total holds s w.pending + issued s + jobs_of s w.jobs + extra'
      → linked c + total keeps s w.pending ≤ issued s
      → total sends s w.pending + sending' ≤ c.send_pending_count
      → c.send_pending_count ≤ 1
      → 1 ≤ issued s + extra
      → Handling (with_session w s c) issued s extra' sending'
  Handling-put c extra' sending' refs owner sent count held = record {
    here = record {
      refs = ground (arith, refs);
      once = h.here.once;
      owner = ground (arith, owner);
      cycle = h.here.cycle;
      sent = ground (arith, sent);
      count = ground (arith, count);
      plain = h.here.plain;
      unused = λ i. absurd (omega (arith, h.here.unused i, h.here.refs, held));
      distinct = h.here.distinct;
      few_jobs = h.here.few_jobs;
    };
    others = λ t ne. Facts_lem c t ne (h.others t ne);
  }

  -- The same, with what the counts do not speak of changed.
  pub Handling-same :
      (c : Session)
      → c.ref_count ≡ (w.session s).ref_count
      → linked c ≤ linked (w.session s)
      → c.send_pending_count ≡ (w.session s).send_pending_count
      → Handling (with_session w s c) issued s extra sending
  Handling-same c refs links count = record {
    here = record {
      refs = ground (arith, refs, h.here.refs);
      once = h.here.once;
      owner = ground (arith, links, h.here.owner);
      cycle = h.here.cycle;
      sent = ground (arith, count, h.here.sent);
      count = ground (arith, count, h.here.count);
      plain = h.here.plain;
      unused = λ i. ground (arith, refs, h.here.unused i);
      distinct = h.here.distinct;
      few_jobs = h.here.few_jobs;
    };
    others = λ t ne. Facts_lem c t ne (h.others t ne);
  }

-- The session may have one more context of this type.
abbrev pub Room : Sessions → (ℕ → ℕ) → ℕ → ℕ → IoType → Type 0
Room w issued s sending io_type =
    (cycles io_type + total cycles s w.pending ≤ 1)
    × (linked (w.session s) + keeps io_type + total keeps s w.pending ≤ issued s)
    × (connects io_type ≡ 0)
    × (sends io_type + total sends s w.pending + sending ≤ (w.session s).send_pending_count)

pub Handling-start :
    {w : Sessions} {issued : ℕ → ℕ} {s : ℕ} (c : IoContext) (extra sending : ℕ)
    → c.session ≡ s
    → Room w issued s sending c.io_type
    → {before : ℕ} → Handling w issued s (extra + 1) before
    → Handling (record w { pending = c ∷ w.pending }) issued s extra sending
Handling-start {w} {issued} {s} c extra sending e room h = record {
  here = record {
    refs = omega (arith, h.here.refs, total_self holds s c w.pending e);
    once = h.here.once;
    owner = omega (arith, room.1, total_self keeps s c w.pending e);
    cycle = omega (arith, room.0, total_self cycles s c w.pending e);
    sent = omega (arith, room.3, total_self sends s c w.pending e);
    count = h.here.count;
    plain = omega (arith, room.2, h.here.plain, total_self connects s c w.pending e);
    unused = h.here.unused;
    distinct = h.here.distinct;
    few_jobs = h.here.few_jobs;
  };
  others = λ t ne.
      let ne' : c.session ≢ t = λ q. ne (sym q ∙ e) in
      let f : Facts w issued t 0 0 = h.others t ne in
      record {
        refs = omega (arith, f.refs, total_other holds t c w.pending ne');
        once = f.once;
        owner = omega (arith, f.owner, total_other keeps t c w.pending ne');
        cycle = omega (arith, f.cycle, total_other cycles t c w.pending ne');
        sent = omega (arith, f.sent, total_other sends t c w.pending ne');
        count = f.count;
        plain = omega (arith, f.plain, total_other connects t c w.pending ne');
        unused = f.unused;
        distinct = f.distinct;
        few_jobs = f.few_jobs;
      };
}

-- A session has at most three contexts with the kernel and its own reference, beside its jobs.
pub few_refs :
    {w : Sessions} {issued : ℕ → ℕ} (t extra sending : ℕ)
    → Facts w issued t extra sending
    → (w.session t).ref_count ≤ 2 ^ 30 + 4 + extra
few_refs {w} t extra sending f = omega (
  arith,
  total-holds-le t w.pending,
  f.refs,
  f.once,
  f.owner,
  f.cycle,
  f.sent,
  f.count,
  f.few_jobs,
  jobs_of-le t w.jobs,
)

pub Handling-done :
    {w : Sessions} {issued : ℕ → ℕ} {s : ℕ} → Handling w issued s 0 0 → IsValid w issued
Handling-done {w} {issued} {s} h t = elim (ℕ_discrete t s) [
  | yes e ↦ subst (λ k. Facts w issued k 0 0) (sym e) h.here
  | no ne ↦ h.others t ne
]

pub IsValid-Handling :
    {w : Sessions} {issued : ℕ → ℕ} (s : ℕ) → IsValid w issued → Handling w issued s 0 0
IsValid-Handling s v = record { here = v s; others = λ t ne. v t }

abbrev with_refs : Sessions → ℕ → ℕ → Sessions
with_refs w s n = with_session w s (record (w.session s) { ref_count = n })

pub add_ref-Handling :
    {w : Sessions} {issued : ℕ → ℕ} {s extra sending : ℕ}
    → Handling w issued s extra sending
    → 1 ≤ issued s + extra
    → extra ≤ 2
    → let w' = with_refs w s ((w.session s).ref_count + 1) in
      (add_ref s w ≡ some (tt, w')) × Handling w' issued s (extra + 1) sending
unfolding add_ref
add_ref-Handling {w} {issued} {s} {extra} {sending} h held le = (
  ground (arith, few_refs s extra sending h.here),
  Handling-put h (record (w.session s) { ref_count = (w.session s).ref_count + 1 }) (extra + 1)
      sending (omega (arith, h.here.refs)) h.here.owner h.here.sent h.here.count held,
)

-- A reference that is given up while the handler has another.
pub release_ref-Handling :
    {w : Sessions} {issued : ℕ → ℕ} {s : ℕ} (extra sending : ℕ)
    → Handling w issued s (extra + 1) sending
    → 1 ≤ issued s + extra
    → let w' = with_refs w s ((w.session s).ref_count - 1) in
      (release_ref s w ≡ some (tt, w')) × Handling w' issued s extra sending
unfolding release_ref
release_ref-Handling {w} {issued} {s} extra sending h held = (
  ground (arith, h.here.refs, held),
  Handling-put h (record (w.session s) { ref_count = (w.session s).ref_count - 1 }) extra sending
      (omega (arith, h.here.refs)) h.here.owner h.here.sent h.here.count (omega (arith, held)),
)

-- The session as it goes back to the free list.
abbrev returned : Sessions → ℕ → Sessions
returned w s = record w {
  session =
      update (with_refs w s 0).session s (session_reset (record (w.session s) { ref_count = 0 }));
  free_sessions = s ∷ w.free_sessions;
  return_count = add_u64 w.return_count 1;
}

module _ {w : Sessions} {issued : ℕ → ℕ} {s sending : ℕ} (h : Handling w issued s 1 sending)
    (last : total holds s w.pending + issued s + jobs_of s w.jobs ≡ 0) where
  release_ref_returns : release_ref s w ≡ some (tt, returned w s)
  unfolding release_ref return_client_session
  release_ref_returns = ground (arith, h.here.refs, h.here.owner)

  out : ¬ In s w.free_sessions
  out i = omega (arith, h.here.unused i, h.here.refs)

  returned-IsValid : IsValid (returned w s) issued
  unfolding session_reset
  returned-IsValid t = elim (ℕ_discrete t s) [
    | yes e ↦
        subst (λ k. Facts (returned w s) issued k 0 0) (sym e)
          (record {
            refs = ground (arith, last);
            once = h.here.once;
            owner = ground (arith, h.here.owner);
            cycle = h.here.cycle;
            sent = ground (arith, h.here.sent);
            count = ground (arith, h.here.count);
            plain = h.here.plain;
            unused = λ i. ground arith;
            distinct = (out, h.here.distinct);
            few_jobs = h.here.few_jobs;
          })
    | no ne ↦
        let f = h.others t ne in
        record {
          refs = ground (arith, f.refs);
          once = f.once;
          owner = ground (arith, f.owner);
          cycle = f.cycle;
          sent = ground (arith, f.sent);
          count = ground (arith, f.count);
          plain = f.plain;
          unused = λ i. elim i [ inl e ↦ absurd (ne (sym e)) | inr j ↦ ground (arith, f.unused j) ];
          distinct = (out, f.distinct);
          few_jobs = f.few_jobs;
        }
  ]

-- The last reference that a handler gives up: the session may go back to the free list.
pub release_ref-IsValid :
    {w : Sessions} {issued : ℕ → ℕ} {s : ℕ} (sending : ℕ)
    → Handling w issued s 1 sending
    → (w' : Sessions) × (release_ref s w ≡ some (tt, w')) × IsValid w' issued
unfolding release_ref
release_ref-IsValid {w} {issued} {s} sending h =
    elim (ℕ_discrete (total holds s w.pending + issued s + jobs_of s w.jobs) 0) [
      | yes last ↦ (returned w s, release_ref_returns h last, returned-IsValid h last)
      | no more ↦ (
        with_refs w s ((w.session s).ref_count - 1),
        ground (arith, h.here.refs, more),
        Handling-done (
            Handling-put h (record (w.session s) { ref_count = (w.session s).ref_count - 1 }) 0 0
              (omega (arith, h.here.refs)) h.here.owner (omega (arith, h.here.sent)) h.here.count
              (omega arith)),
      )
    ]

-- They do not speak of the requests and of the next id.
pub Handling-rest :
    {w : Sessions} {issued : ℕ → ℕ} {s extra sending : ℕ} (r : List ℕ) (pid : ℕ)
    → Handling w issued s extra sending
    → Handling (record w { requests = r; next_pid = pid }) issued s extra sending
Handling-rest {w} {issued} r pid h = record {
  here = again h.here;
  others = λ t ne. again (h.others t ne);
}
  where
    again :
        {t extra sending : ℕ}
        → Facts w issued t extra sending
        → Facts (record w { requests = r; next_pid = pid }) issued t extra sending
    again f = record {
      refs = f.refs;
      once = f.once;
      owner = f.owner;
      cycle = f.cycle;
      sent = f.sent;
      count = f.count;
      plain = f.plain;
      unused = f.unused;
      distinct = f.distinct;
      few_jobs = f.few_jobs;
    }
