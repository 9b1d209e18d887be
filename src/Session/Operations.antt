-- ===== src/Session/Operations.antt =====
-- `AcceptCompletion` and `DisconnectCompletion` of Homework6/EduServer_IOCP, and the reference
-- counts.
use gsp.Prelude.{
  ℕ, ◌+◌, ◌%◌, ◌^◌, ◌<◌, ◌≡◌, refl, sym, ap, ◌∙◌, inl, inr, Bool, true, false, some, ◌∷◌, arith,
  Bool-cases, length,
}
use gsp.Database.State.{thread_io_worker}
use gsp.Session.State.{
  io_accept, io_disconnect, dr_onconnect_error, DatabaseJob, Session, Sessions, update,
}
use gsp.Session.{disconnect_completion}
use gsp.Session.Counting.{total, keeps, jobs_of_self, jobs_of_other}
use gsp.Session.References.{
  Handling, Room, linked, with_session, Handling-put, Handling-rest, add_ref-Handling,
  release_ref-Handling,
}
use gsp.Session.Handlers.{disconnect_request-Keeps, pre_recv-Keeps}
use gsp.Session.Requests.{request_load, new_database_job}
use gsp.Session.Accepting.{Setup, setup_ok, accept_completion}
use gsp.Session.Growing.{load_job, pre_recv-jobs}

-- A new database context has the reference that the handler has taken for it.
Handling-job :
    {w : Sessions} {issued : ℕ → ℕ} {s extra sending : ℕ} (j : DatabaseJob) (pid : ℕ)
    → j.session_object ≡ s
    → length w.jobs < 2 ^ 30
    → Handling w issued s (extra + 1) sending
    → Handling (record w { jobs = j ∷ w.jobs; next_pid = pid }) issued s extra sending
Handling-job {w} {issued} {s} {extra} {sending} j pid own few h = record {
  here =
      let f = h.here in
      record {
        refs = omega (arith, f.refs, jobs_of_self s j w.jobs own);
        once = f.once;
        owner = f.owner;
        cycle = f.cycle;
        sent = f.sent;
        count = f.count;
        plain = f.plain;
        unused = f.unused;
        distinct = f.distinct;
        few_jobs = omega (arith, few);
      };
  others = λ t ne.
      let f = h.others t ne in
      record {
        refs = omega (arith, f.refs, jobs_of_other t j w.jobs (λ q. ne (sym q ∙ own)));
        once = f.once;
        owner = f.owner;
        cycle = f.cycle;
        sent = f.sent;
        count = f.count;
        plain = f.plain;
        unused = f.unused;
        distinct = f.distinct;
        few_jobs = omega (arith, few);
      };
}

-- The reference of the issue is in the hands of the handler.
Handling-back :
    {w : Sessions} {issued : ℕ → ℕ} {s : ℕ}
    → Handling w issued s 1 0
    → issued s ≡ 1
    → linked (w.session s) + total keeps s w.pending ≡ 0
    → Handling w (update issued s 0) s 2 0
Handling-back {w} {issued} {s} h one loose = record {
  here =
      let f = h.here in
      record {
        refs = ground (arith, f.refs, one);
        once = ground arith;
        owner = ground (arith, loose);
        cycle = f.cycle;
        sent = f.sent;
        count = f.count;
        plain = f.plain;
        unused = f.unused;
        distinct = f.distinct;
        few_jobs = f.few_jobs;
      };
  others = λ t ne.
      let f = h.others t ne in
      record {
        refs = ground (arith, f.refs, ne);
        once = ground (arith, f.once, ne);
        owner = ground (arith, f.owner, ne);
        cycle = f.cycle;
        sent = f.sent;
        count = f.count;
        plain = f.plain;
        unused = f.unused;
        distinct = f.distinct;
        few_jobs = f.few_jobs;
      };
}

pub disconnect_completion-Handling :
    {w : Sessions} {issued : ℕ → ℕ} {s : ℕ}
    → Handling w issued s 1 0
    → Room w issued s 0 io_disconnect
    → (w' : Sessions) × (disconnect_completion s w ≡ some (tt, w'))
      × Handling w' (update issued s 0) s 1 0
unfolding disconnect_completion
disconnect_completion-Handling {w} {issued} {s} h room =
    let (e, h') =
      release_ref-Handling 1 0
        (Handling-back h (omega (arith, room.1, h.here.once)) (omega (arith, room.1, h.here.once)))
        (omega arith) in
    (_, e, h')

-- A client that is set up has its own database context, and one whose set-up fails is disconnected.
pub accept_completion-Handling :
    {w : Sessions} {issued : ℕ → ℕ} {s : ℕ} (k : Setup) (r d : Bool)
    → Handling w issued s 1 0
    → Room w issued s 0 io_accept
    → length w.jobs < 2 ^ 30
    → (w' : Sessions) × (accept_completion thread_io_worker s k r d w ≡ some (tt, w'))
      × Handling w' issued s 1 0
unfolding accept_completion request_load new_database_job
accept_completion-Handling {w} {issued} {s} k r d h room few =
    let c : Session = record (w.session s) { connected = true } in
    let w₁ : Sessions = with_session w s c in
    let h₁ : Handling w₁ issued s 1 0 =
      Handling-put h c 1 0 h.here.refs (omega (arith, room.1, h.here.owner)) h.here.sent
        h.here.count (omega arith) in
    let closed : (w.session s).connected ≡ false = ground (arith, room.1, h.here.once) in
    elim (Bool-cases (setup_ok k)) [
      | inl good ↦
          let (b, w₂, e₂, h₂, _) = pre_recv-Keeps h₁ (omega arith) r (omega (arith, room.0)) in
          let w₃ : Sessions = record w₂ { next_pid = (w₂.next_pid + 1) % 2 ^ 32 } in
          let h₃ : Handling w₃ issued s 1 0 = Handling-rest w₂.requests w₃.next_pid h₂ in
          let (e₄, h₄) = add_ref-Handling h₃ (omega arith) (omega arith) in
          let same = pre_recv-jobs s r w₁ b w₂ e₂ in
          let j = load_job s w₂.next_pid in
          (
            _,
            ground (arith, closed, good, e₂, e₄),
            Handling-job j w₃.next_pid refl (omega (arith, few, ap length same)) h₄,
          )
      | inr bad ↦
          let (_, w₂, e₂, h₂, _) = disconnect_request-Keeps h₁ (omega arith) dr_onconnect_error d in
          (w₂, ground (arith, closed, bad, e₂), h₂)
    ]
