-- ===== src/Server/Accepting.antt =====
-- `SessionManager::PrepareSessions` and `AcceptSessions`: the pool of sessions at the start, and
-- sessions that are issued from it.
use gsp.Prelude.{
  ℕ, zero, suc, ◌+◌, ◌≤◌, ◌<◌, ◌≡◌, refl, inl, inr, Option, none, some, List, [], ◌∷◌, arith, subst,
  if◌then◌else◌, add_u64, length, In, Distinct,
}
use gsp.CircularBuffer.Memory.{Bytes}
use gsp.Server.State.{io_accept, ThreadType, thread_main, Server, max_connection, update, is_main}
use gsp.Server.Counting.{total-nil, total-cycles-le, holds, keeps, cycles}
use gsp.Server.{new_session}
use gsp.Server.Invariant.{Facts, FreeList, IsValid, Handling, Room, with_session}
use gsp.Server.References.{add_ref-Handling}

-- `n` sessions, pushed back one after the other.
unfoldable pub pushed_sessions : ℕ → List ℕ
pushed_sessions zero = []
pushed_sessions (suc n) = n ∷ pushed_sessions n

-- The server after `PrepareSessions`; `bytes` is what the fresh buffers hold.
unfoldable pub prepare_sessions : ThreadType → (ℕ → Bytes) → Option Server
prepare_sessions thread bytes =
    if is_main thread
    then some (record {
      session = λ s. new_session (bytes s);
      free_sessions = pushed_sessions max_connection;
      issue_count = 0;
      return_count = 0;
      pending = [];
    })
    else none

pushed-lt : (n t : ℕ) → In t (pushed_sessions n) → t < n
unfolding pushed_sessions
pushed-lt zero t i = absurd i
pushed-lt (suc n) t (inl e) = omega arith
pushed-lt (suc n) t (inr i) = omega (arith, pushed-lt n t i)

pushed-Distinct : (n : ℕ) → Distinct (pushed_sessions n)
unfolding pushed_sessions
pushed-Distinct zero = tt
pushed-Distinct (suc n) = ((λ i. omega (arith, pushed-lt n n i)), pushed-Distinct n)

length-pushed : (n : ℕ) → length (pushed_sessions n) ≡ n
unfolding pushed_sessions
length-pushed zero = refl
length-pushed (suc n) = omega (arith, length-pushed n)

abbrev pub prepared : (ℕ → Bytes) → Server
prepared bytes = record {
  session = λ s. new_session (bytes s);
  free_sessions = pushed_sessions max_connection;
  issue_count = 0;
  return_count = 0;
  pending = [];
}

-- The main thread gets a server with the full pool, and nothing is issued.
pub prepare_sessions-IsValid :
    (bytes : ℕ → Bytes)
    → (w : Server) × (prepare_sessions thread_main bytes ≡ some w) × IsValid w (λ _. 0)
unfolding prepare_sessions new_session
prepare_sessions-IsValid bytes = (
  prepared bytes,
  refl,
  record {
    facts = λ t. record {
      refs = omega (arith, total-nil holds t);
      once = omega arith;
      owner = omega (arith, total-nil keeps t);
      cycle = omega (arith, total-nil cycles t);
      known = λ p. omega arith;
    };
    free = record {
      unused = λ t i. refl;
      distinct = pushed-Distinct max_connection;
      bounded = pushed-lt max_connection;
      counted = omega (arith, length-pushed max_connection);
      words = (omega arith, omega arith);
    };
  },
)

pub free_cases : (xs : List ℕ) → 1 ≤ length xs → (s : ℕ) × (rest : List ℕ) × (xs ≡ s ∷ rest)
free_cases [] h = absurd (omega arith)
free_cases (s ∷ rest) h = (s, rest, refl)

-- The session at the back of the list is taken.
module _ {w : Server} {issued : ℕ → ℕ} (v : IsValid w issued) (s : ℕ) (rest : List ℕ)
    (e : w.free_sessions ≡ s ∷ rest) where
  abbrev pub popped : Server
  popped = record w { free_sessions = rest; issue_count = add_u64 w.issue_count 1 }

  own_free : FreeList (record w { free_sessions = s ∷ rest })
  own_free = subst (λ xs. FreeList (record w { free_sessions = xs })) e v.free

  pub popped-Handling : Handling popped issued s 0
  popped-Handling = record {
    here =
        let f : Facts w issued s 0 = v.facts s in
        record { refs = f.refs; once = f.once; owner = f.owner; cycle = f.cycle; known = f.known };
    others = λ t ne.
        let f : Facts w issued t 0 = v.facts t in
        record { refs = f.refs; once = f.once; owner = f.owner; cycle = f.cycle; known = f.known };
    free = record {
      unused = λ t i. own_free.unused t (inr i);
      distinct = own_free.distinct.1;
      bounded = λ t i. own_free.bounded t (inr i);
      counted = omega (arith, own_free.counted);
      words = (omega arith, own_free.words.1);
    };
    out = own_free.distinct.0;
    bound = own_free.bounded s (inl refl);
  }

  -- With the first reference, which is the one of the issue.
  abbrev pub taken_out : Server
  taken_out =
      with_session popped s (record (w.session s) { ref_count = (w.session s).ref_count + 1 })

  abbrev pub issued_too : ℕ → ℕ
  issued_too = update issued s 1

  not_used : (w.session s).ref_count ≡ 0
  not_used = own_free.unused s (inl refl)

  pub taken_out-Handling : Handling taken_out issued_too s 0
  taken_out-Handling =
      let h : Handling taken_out issued s 1 = (add_ref-Handling popped-Handling (omega arith)).1 in
      record {
        here = ground (arith, h.here, not_used);
        others = λ t ne. ground (arith, h.others t ne);
        free = h.free;
        out = h.out;
        bound = h.bound;
      }

  pub issue_room : Room taken_out issued_too s io_accept
  issue_room =
      let f : Facts w issued s 0 = v.facts s in
      (
        omega (arith, f.refs, not_used, total-cycles-le s w.pending),
        ground (arith, f.refs, f.owner, not_used),
      )
