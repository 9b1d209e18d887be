-- ===== src/Session/Growing.antt =====
-- The database contexts while an I/O thread of Homework6/EduServer_IOCP works: who makes them and
-- who deletes them.
use gsp.Prelude.{
  ℕ, zero, suc, ◌≡◌, refl, sym, ap, ap₂, ◌+◌, ◌%◌, ◌^◌, ◌∙◌, Bool, true, false, Option, none, some,
  List, [], ◌∷◌, ◌||◌, not, ◌==◌, if◌then◌else◌, arith, ◌⊎◌, inl, inr, Option-cases, Bool-cases,
  drop,
}
use gsp.Database.State.{ThreadType, load_player_data}
use gsp.Database.Contexts.{load_player_data_context}
use gsp.Session.State.{
  IoType, io_send, io_recv, io_recv_zero, io_accept, io_disconnect, io_connect, DisconnectReason,
  dr_onconnect_error, dr_completion_error, dr_io_request_error, update, IoContext, DatabaseJob,
  Session, Sessions, M, pure, ◌>>=◌,
}
use gsp.Session.{
  return_client_session, add_ref, release_ref, new_context, delete_io_context, submit,
  disconnect_request, pre_recv, post_recv, post_send, count_send, flush_send, disconnect_completion,
  send_completion, recv_completion, echo_back, do_send_job,
}
use gsp.Session.Requests.{new_database_job, request_load}
use gsp.Session.Accepting.{Setup, take_pid, setup_ok, is_io_worker, accept_completion}
use gsp.Session.IoThread.{
  Completion, Answers, moves_bytes, handle_closed, dispatch, handle, do_iocp_job, run_round,
}

-- If the operation returns, the database contexts are the ones that were there.
abbrev Keeps : {A : Type 0} → M A → Type 0
Keeps {A} m = (w : Sessions) (a : A) (w' : Sessions) → m w ≡ some (a, w') → w'.jobs ≡ w.jobs

delete_io_context-Keeps : (c : IoContext) → Keeps (delete_io_context c)
unfolding delete_io_context release_ref return_client_session
delete_io_context-Keeps c w a w' e = ground arith

disconnect_request-Keeps :
    (s : ℕ) (reason : DisconnectReason) (started : Bool)
    → Keeps (disconnect_request s reason started)
unfolding disconnect_request new_context add_ref submit delete_io_context release_ref
    return_client_session
disconnect_request-Keeps s reason true w a w' e = ground arith
disconnect_request-Keeps s reason false w a w' e = ground arith

pub pre_recv-jobs :
    (s : ℕ) (started : Bool) (w : Sessions) (a : Bool) (w' : Sessions)
    → pre_recv s started w ≡ some (a, w')
    → w'.jobs ≡ w.jobs
unfolding pre_recv new_context add_ref submit delete_io_context release_ref return_client_session
pre_recv-jobs s true w a w' e = ground arith
pre_recv-jobs s false w a w' e = ground arith

post_recv-Keeps : (s : ℕ) (started : Bool) → Keeps (post_recv s started)
unfolding post_recv new_context add_ref submit delete_io_context release_ref return_client_session
post_recv-Keeps s true w a w' e = ground arith
post_recv-Keeps s false w a w' e = ground arith

echo_back-Keeps : (s : ℕ) → Keeps (echo_back s)
unfolding echo_back post_send
echo_back-Keeps s w a w' e = ground arith

pub flush_send-Keeps : (s : ℕ) (started d : Bool) → Keeps (flush_send s started d)
unfolding flush_send new_context add_ref submit count_send disconnect_request delete_io_context
    release_ref return_client_session
flush_send-Keeps s true true w a w' e = ground arith
flush_send-Keeps s true false w a w' e = ground arith
flush_send-Keeps s false true w a w' e = ground arith
flush_send-Keeps s false false w a w' e = ground arith

List-cases : {A : Type 0} (xs : List A) → (xs ≡ []) ⊎ ((x : A) × (rest : List A) × (xs ≡ x ∷ rest))
List-cases [] = inl refl
List-cases (x ∷ rest) = inr (x, rest, refl)

abbrev next_of : {A B : Type 0} → (A → M B) → Option (A × Sessions) → Option (B × Sessions)
next_of f none = none
next_of f (some (a, w)) = f a w

do_send_job-Keeps : (started d : ℕ → Bool) (fuel : ℕ) → Keeps (do_send_job started d fuel)
unfolding do_send_job
do_send_job-Keeps started d zero w a w' e = ground arith
do_send_job-Keeps started d (suc f) w a w' e = elim (List-cases w.requests) [
  | inl q ↦ ground arith
  | inr (s, rest, q) ↦ elim (Option-cases (flush_send s (started f) (d f) w)) [
    | inl none_left ↦ absurd (ground arith)
    | inr ((true, w₁), r) ↦ ground (
      arith,
      do_send_job-Keeps started d f (record w₁ { requests = drop 1 w₁.requests }) a w',
      flush_send-Keeps s (started f) (d f) w true w₁ r,
    )
    | inr ((false, w₁), r) ↦ ground (
      arith,
      do_send_job-Keeps started d f w₁ a w',
      flush_send-Keeps s (started f) (d f) w false w₁ r,
    )
  ]
]

-- The database context of an accepted client.
abbrev pub load_job : ℕ → ℕ → DatabaseJob
load_job s pid = record {
  session_object = s;
  job = load_player_data;
  variables = load_player_data_context pid;
  success = false;
}

-- The database contexts after an operation of the session `s` has completed.
abbrev made : ℕ → Setup → IoType → Sessions → List DatabaseJob
made s k io_accept w = if setup_ok k then load_job s w.next_pid ∷ w.jobs else w.jobs
made s k _ w = w.jobs

-- The database contexts after a completion: one more where a client was accepted and its socket set
-- up, and otherwise the same.
abbrev pub grown : Option IoContext → Answers → Sessions → List DatabaseJob
grown none k w = w.jobs
grown (some c) k w = made c.session k.setup c.io_type w

made-moves :
    (s : ℕ) (k : Setup) (type : IoType) (w : Sessions)
    → moves_bytes type ≡ true
    → made s k type w ≡ w.jobs
made-moves s k io_send w e = refl
made-moves s k io_recv w e = refl
made-moves s k io_recv_zero w e = refl
made-moves s k io_disconnect w e = refl
made-moves s k io_connect w e = refl
made-moves s k io_accept w e = absurd (ground (arith, e))

made-cases :
    (s : ℕ) (k : Setup) (type : IoType) (w : Sessions)
    → (made s k type w ≡ w.jobs) ⊎ (made s k type w ≡ load_job s w.next_pid ∷ w.jobs)
made-cases s k io_send w = inl refl
made-cases s k io_recv w = inl refl
made-cases s k io_recv_zero w = inl refl
made-cases s k io_disconnect w = inl refl
made-cases s k io_connect w = inl refl
made-cases s k io_accept w = elim (Bool-cases (setup_ok k)) [
  | inl o ↦ inr (rw o refl)
  | inr o ↦ inl (rw o refl)
]

-- Nothing deletes one.
pub grown-cases :
    (context : Option IoContext) (k : Answers) (w : Sessions)
    → (grown context k w ≡ w.jobs)
      ⊎ ((s : ℕ) × (grown context k w ≡ load_job s w.next_pid ∷ w.jobs))
grown-cases none k w = inl refl
grown-cases (some c) k w = elim (made-cases c.session k.setup c.io_type w) [
  | inl e ↦ inl e
  | inr e ↦ inr (c.session, e)
]

request_load_jobs :
    (s pid : ℕ) (w w' : Sessions) (a : Unit {0})
    → request_load s pid w ≡ some (a, w')
    → w'.jobs ≡ load_job s pid ∷ w.jobs
unfolding request_load new_database_job add_ref
request_load_jobs s pid w w' a e = ground arith

pre_recv-next_pid :
    (s : ℕ) (started : Bool) (w w' : Sessions) (a : Bool)
    → pre_recv s started w ≡ some (a, w')
    → w'.next_pid ≡ w.next_pid
unfolding pre_recv new_context add_ref submit delete_io_context release_ref return_client_session
pre_recv-next_pid s true w w' a e = ground arith
pre_recv-next_pid s false w w' a e = ground arith

then_some :
    {A B : Type 0} (m : M A) (f : A → M B) (w w' : Sessions) (b : B)
    → (m >>= f) w ≡ some (b, w')
    → (a : A) × (w₁ : Sessions) × (m w ≡ some (a, w₁)) × (f a w₁ ≡ some (b, w'))
then_some m f w w' b e = elim (Option-cases (m w)) [
  | inl q ↦ absurd (ground arith)
  | inr ((a, w₁), q) ↦ (a, w₁, q, sym (ap (next_of f) q) ∙ e)
]

abbrev taken_pid : Sessions → Sessions
taken_pid w = record w { next_pid = (w.next_pid + 1) % 2 ^ 32 }

accept_completion_jobs :
    (thread : ThreadType) (s : ℕ) (k : Setup) (r d : Bool) (w w' : Sessions) (a : Unit {0})
    → accept_completion thread s k r d w ≡ some (a, w')
    → w'.jobs ≡ made s k io_accept w
unfolding accept_completion
accept_completion_jobs thread s k r d w w' a e =
    let c : Session = record (w.session s) { connected = true } in
    let w₁ : Sessions = record w { session = update w.session s c } in
    elim (Bool-cases (is_io_worker thread)) [
      | inr p ↦ absurd (ground (arith, rw p at e))
      | inl p ↦ elim (Bool-cases (w.session s).connected) [
        | inl q ↦ absurd (ground (arith, rw (p, q) at e))
        | inr q ↦ elim (Bool-cases (setup_ok k)) [
          | inl o ↦
              let (b, w₂, pre, rest) =
                then_some (pre_recv s r) (λ _. take_pid >>= λ pid. request_load s pid) w₁ w' a
                  (rw (p, q, o) at e) in
              rw o (
                request_load_jobs s w₂.next_pid (taken_pid w₂) w' a rest
                ∙ ap₂ (λ n jobs. load_job s n ∷ jobs) (pre_recv-next_pid s r w₁ w₂ b pre)
                    (pre_recv-jobs s r w₁ b w₂ pre))
          | inr o ↦
              rw o (disconnect_request-Keeps s dr_onconnect_error d w₁ a w' (rw (p, q, o) at e))
        ]
      ]
    ]

recv_completion-Keeps : (s n : ℕ) → Keeps (recv_completion s n)
unfolding recv_completion
recv_completion-Keeps s n w a w' e = ground arith

disconnect_completion-Keeps : (s : ℕ) → Keeps (disconnect_completion s)
unfolding disconnect_completion release_ref return_client_session
disconnect_completion-Keeps s w a w' e = ground arith

send_completion-Keeps : (s n : ℕ) → Keeps (send_completion s n)
unfolding send_completion
send_completion-Keeps s n w a w' e = ground arith

-- Two that keep them, one after the other.
bind-Keeps :
    {A B : Type 0} (m : M A) (f : A → M B) → Keeps m → ((a : A) → Keeps (f a)) → Keeps (m >>= f)
bind-Keeps m f g h w b w' e =
    let (a, w₁, p, q) = then_some m f w w' b e in h a w₁ b w' q ∙ g w a w₁ p

pure-Keeps : {A : Type 0} (a : A) → Keeps {A = A} (pure a)
pure-Keeps a w b w' e = ground arith

dispatch_jobs :
    (thread : ThreadType) (c : IoContext) (type : IoType) (n : ℕ) (k : Answers) (w w' : Sessions)
    (b : Bool)
    → dispatch thread c type n k w ≡ some (b, w')
    → w'.jobs ≡ made c.session k.setup type w
unfolding dispatch
dispatch_jobs thread c io_connect n k w w' b e = absurd (ground arith)
dispatch_jobs thread c io_disconnect n k w w' b e =
    (bind-Keeps (disconnect_completion c.session) (λ _. pure true)
      (disconnect_completion-Keeps c.session) (λ _. pure-Keeps true) w b w' e)
dispatch_jobs thread c io_accept n k w w' b e =
    let accept = accept_completion thread c.session k.setup k.recv_started k.disconnect_started in
    let (a, w₁, p, q) = then_some accept (λ _. pure true) w w' b e in
    let same = pure-Keeps true w₁ b w' q in
    same
    ∙ accept_completion_jobs thread c.session k.setup k.recv_started k.disconnect_started w w₁ a p
dispatch_jobs thread c io_recv_zero n k w w' b e = post_recv-Keeps c.session k.recv_started w b w' e
dispatch_jobs thread c io_send n k w w' b e =
    (bind-Keeps (send_completion c.session n) (λ _. pure (c.len == n))
      (send_completion-Keeps c.session n) (λ _. pure-Keeps (c.len == n)) w b w' e)
dispatch_jobs thread c io_recv n k w w' b e =
    (bind-Keeps (recv_completion c.session n)
      (λ _. echo_back c.session >>= λ _. pre_recv c.session k.recv_started)
      (recv_completion-Keeps c.session n)
      (λ _.
        bind-Keeps (echo_back c.session) (λ _. pre_recv c.session k.recv_started)
          (echo_back-Keeps c.session) (λ _. pre_recv-jobs c.session k.recv_started))
      w b w' e)

close_if : Bool → IoContext → Bool → M (Unit {0})
close_if completion_ok c d =
    if completion_ok then pure tt else disconnect_request c.session dr_io_request_error d

close_if-Keeps : (b : Bool) (c : IoContext) (d : Bool) → Keeps (close_if b c d)
unfolding close_if
close_if-Keeps true c d = pure-Keeps tt
close_if-Keeps false c d = disconnect_request-Keeps c.session dr_io_request_error d

handle_jobs :
    (thread : ThreadType) (c : IoContext) (n : ℕ) (k : Answers) (w w' : Sessions) (a : Unit {0})
    → handle thread c n k w ≡ some (a, w')
    → w'.jobs ≡ made c.session k.setup c.io_type w
unfolding handle close_if
handle_jobs thread c n k w w' a e =
    let rest = λ (b : Bool). close_if b c k.disconnect_started >>= λ _. delete_io_context c in
    let (b, w₁, p, q) = then_some (dispatch thread c c.io_type n k) rest w w' a e in
    let same =
      bind-Keeps (close_if b c k.disconnect_started) (λ _. delete_io_context c)
        (close_if-Keeps b c k.disconnect_started) (λ _. delete_io_context-Keeps c) w₁ a w' q in
    same ∙ dispatch_jobs thread c c.io_type n k w w₁ b p

handle_closed-Keeps : (c : IoContext) (k : Answers) → Keeps (handle_closed c k)
unfolding handle_closed
handle_closed-Keeps c k =
    bind-Keeps (disconnect_request c.session dr_completion_error k.disconnect_started)
      (λ _. delete_io_context c)
      (disconnect_request-Keeps c.session dr_completion_error k.disconnect_started)
      (λ _. delete_io_context-Keeps c)

pub do_iocp_job_jobs :
    (thread : ThreadType) (context : Option IoContext) (q : Completion) (k : Answers)
    (w w' : Sessions) (a : Unit {0})
    → do_iocp_job thread context q k w ≡ some (a, w')
    → w'.jobs ≡ grown context k w
unfolding do_iocp_job
do_iocp_job_jobs thread none q k w w' a e = ground arith
do_iocp_job_jobs thread (some c) q k w w' a e = elim (Bool-cases (not q.ok || q.transferred == 0)) [
  | inl closed ↦ elim (Bool-cases (moves_bytes c.io_type)) [
    | inl moves ↦
        handle_closed-Keeps c k w a w' (rw (closed, moves) at e)
        ∙ sym (made-moves c.session k.setup c.io_type w moves)
    | inr other ↦ handle_jobs thread c q.transferred k w w' a (rw (closed, other) at e)
  ]
  | inr moved ↦ handle_jobs thread c q.transferred k w w' a (rw moved at e)
]

-- A round of an I/O thread, if it returns: every database context of before is still there, since
-- nothing deletes one. There is one more exactly if the context is of an accept and the accepted
-- socket was set up; it is for that context's session, with the next id.
pub run_round-jobs :
    (thread : ThreadType) (context : Option IoContext) (q : Completion) (k : Answers)
    (started d : ℕ → Bool) (fuel : ℕ) (w w' : Sessions)
    → run_round thread context q k started d fuel w ≡ some (tt, w')
    → w'.jobs ≡ grown context k w
unfolding run_round
run_round-jobs thread context q k started d fuel w w' e =
    let (a, w₁, p, r) =
      then_some (do_iocp_job thread context q k) (λ _. do_send_job started d fuel) w w' tt e in
    do_send_job-Keeps started d fuel w₁ tt w' r ∙ do_iocp_job_jobs thread context q k w w₁ a p
