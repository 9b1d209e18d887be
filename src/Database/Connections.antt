-- ===== src/Database/Connections.antt =====
-- `Initialize` and `Finalize` of Homework6/EduServer_IOCP/DBHelper.cpp: a connection with its
-- statement for each database thread.
use gsp.Prelude.{
  ℕ, zero, suc, ◌+◌, ◌<◌, ◌≤◌, ◌≡◌, ◌≢◌, ◌⊎◌, subst, refl, sym, ap, ◌∙◌, inl, inr, Bool, true,
  false, Option, none, some, List, [], ◌∷◌, ◌==◌, ◌++◌, if◌then◌else◌, update, arith, Bool-cases,
}
use gsp.Database.State.{thread_db_worker, SqlConn, SqlReturn}
use gsp.Database.{succeeded}
use gsp.Database.Releasing.{is_ready}

-- What ODBC answers: the handle of each `SQLAllocHandle` that succeeds, whether `SQLSetEnvAttr`
-- does, and each `SQLDriverConnect`.
pub record Answers : Type 0 where
  pub env : Option ℕ
  pub attr : Bool
  pub dbc : ℕ → Option ℕ
  pub connect : ℕ → SqlReturn
  pub stmt : ℕ → Option ℕ

-- The static members of `DBHelper`.
pub record Connections : Type 0 where
  pub sql_henv : ℕ
  pub conn_pool : ℕ → SqlConn
  pub db_worker_thread_count : ℕ

-- A call that fails gives SQL_NULL_HANDLE.
abbrev pub handle_of : Option ℕ → ℕ
handle_of none = 0
handle_of (some h) = h

abbrev is_some : Option ℕ → Bool
is_some none = false
is_some (some h) = true

abbrev new_sql_conn : SqlConn
new_sql_conn = record { sql_hdbc = 0; sql_hstmt = 0; using_now = false }

abbrev with_hdbc : Answers → ℕ → SqlConn → SqlConn
with_hdbc a i c = record c { sql_hdbc = handle_of (a.dbc i) }

abbrev with_hstmt : Answers → ℕ → SqlConn → SqlConn
with_hstmt a i c = record c { sql_hstmt = handle_of (a.stmt i) }

-- The loop of `Initialize`, `n` times from `i` on.
unfoldable pub connect_each : Answers → ℕ → ℕ → (ℕ → SqlConn) → Bool × (ℕ → SqlConn)
connect_each a zero i pool = (true, pool)
connect_each a (suc n) i pool =
    let pool₁ : ℕ → SqlConn = update pool i (with_hdbc a i (pool i)) in
    let pool₂ : ℕ → SqlConn = update pool i (with_hstmt a i (with_hdbc a i (pool i))) in
    let rest : Bool × (ℕ → SqlConn) = connect_each a n (i + 1) pool₂ in
    if is_some (a.dbc i)
    then (if succeeded (a.connect i)
        then (if is_some (a.stmt i) then rest else (false, pool₂))
        else (false, pool₁))
    else (false, pool₁)

unfoldable pub initialize : Answers → ℕ → Connections → Bool × Connections
initialize a count c =
    let c₁ : Connections = record c {
      conn_pool = λ i. new_sql_conn;
      db_worker_thread_count = count;
    } in
    let c₂ : Connections = record c₁ { sql_henv = handle_of a.env } in
    let r : Bool × (ℕ → SqlConn) = connect_each a count 0 c₂.conn_pool in
    if is_some a.env
    then (if a.attr then (r.0, record c₂ { conn_pool = r.1 }) else (false, c₂))
    else (false, c₂)

pub data HandleType : Type 0 where
  sql_handle_dbc sql_handle_stmt : HandleType

abbrev free_handle : HandleType → ℕ → List (HandleType × ℕ)
free_handle type h = if h == 0 then [] else (type, h) ∷ []

-- The handles that `SQLFreeHandle` is called with, `n` times from `i` on.
unfoldable pub free_each : ℕ → ℕ → (ℕ → SqlConn) → List (HandleType × ℕ)
free_each zero i pool = []
free_each (suc n) i pool =
    free_handle sql_handle_stmt (pool i).sql_hstmt
    ++ free_handle sql_handle_dbc (pool i).sql_hdbc
    ++ free_each n (i + 1) pool

unfoldable pub finalize : Connections → List (HandleType × ℕ)
finalize c = free_each c.db_worker_thread_count 0 c.conn_pool

-- The connection of thread `i` when all its calls have succeeded.
abbrev pub made : Answers → ℕ → SqlConn
made a i = record {
  sql_hdbc = handle_of (a.dbc i);
  sql_hstmt = handle_of (a.stmt i);
  using_now = false;
}

abbrev next_pool : Answers → ℕ → (ℕ → SqlConn) → ℕ → SqlConn
next_pool a i pool = update pool i (with_hstmt a i (with_hdbc a i (pool i)))

update_ne : (i j : ℕ) (pool : ℕ → SqlConn) (c : SqlConn) → i ≢ j → update pool i c j ≡ pool j
update_ne i j pool c ne = ground (arith, ne)

update_self_lem : (i : ℕ) (pool : ℕ → SqlConn) (c : SqlConn) → update pool i c i ≡ c
update_self_lem i pool c = ground arith

ℕ-cases : (i j : ℕ) → i ≤ j → (i ≡ j) ⊎ (i + 1 ≤ j)
ℕ-cases i j h = ground (arith, h)

-- A loop that ends well has gone on.
connect_each-step :
    (a : Answers) (n i : ℕ) (pool : ℕ → SqlConn)
    → (connect_each a (suc n) i pool).0 ≡ true
    → connect_each a (suc n) i pool ≡ connect_each a n (i + 1) (next_pool a i pool)
unfolding connect_each
connect_each-step a n i pool ok = elim (Bool-cases (is_some (a.dbc i))) [
  | inl d ↦ elim (Bool-cases (succeeded (a.connect i))) [
    | inl c ↦ elim (Bool-cases (is_some (a.stmt i))) [
      | inl s ↦ rw (d, c, s) refl
      | inr s ↦ absurd (ground (arith, rw (d, c, s) at ok))
    ]
    | inr c ↦ absurd (ground (arith, rw (d, c) at ok))
  ]
  | inr d ↦ absurd (ground (arith, rw d at ok))
]

connect_each-before :
    (a : Answers) (n i : ℕ) (pool : ℕ → SqlConn) (j : ℕ)
    → (connect_each a n i pool).0 ≡ true
    → j < i
    → (connect_each a n i pool).1 j ≡ pool j
unfolding connect_each
connect_each-before a zero i pool j ok h = refl
connect_each-before a (suc n) i pool j ok h =
    let e = connect_each-step a n i pool ok in
    let before =
      connect_each-before a n (i + 1) (next_pool a i pool) j (ap (λ r. r.0) (sym e) ∙ ok)
        (omega (arith, h)) in
    let other = update_ne i j pool (with_hstmt a i (with_hdbc a i (pool i))) (ground (arith, h)) in
    ap (λ r. r.1 j) e ∙ before ∙ other

connect_each-made :
    (a : Answers) (n i : ℕ) (pool : ℕ → SqlConn)
    → ((j : ℕ) → i ≤ j → pool j ≡ new_sql_conn)
    → (connect_each a n i pool).0 ≡ true
    → (j : ℕ) → i ≤ j
    → j < i + n
    → (connect_each a n i pool).1 j ≡ made a j
unfolding connect_each
connect_each-made a zero i pool fresh ok j below above = absurd (omega (arith, below, above))
connect_each-made a (suc n) i pool fresh ok j below above =
    let e = connect_each-step a n i pool ok in
    let pool₂ = next_pool a i pool in
    let ok₂ = ap (λ r. r.0) (sym e) ∙ ok in
    let other = λ (k : ℕ) (h : i + 1 ≤ k).
      update_ne i k pool (with_hstmt a i (with_hdbc a i (pool i))) (ground (arith, h))
      ∙ fresh k (omega (arith, h)) in
    elim (ℕ-cases i j below) [
      | inl q ↦
          ap (λ r. r.1 j) e
          ∙ connect_each-before a n (i + 1) pool₂ j ok₂ (omega (arith, q))
          ∙ subst (λ k. pool₂ k ≡ made a k) q
              (update_self_lem i pool _
                ∙ ap (λ c. with_hstmt a i (with_hdbc a i c)) (fresh i (omega arith)))
      | inr h ↦
          ap (λ r. r.1 j) e
          ∙ connect_each-made a n (i + 1) pool₂ other ok₂ j h (omega (arith, above))
    ]

abbrev no_connections : ℕ → SqlConn
no_connections i = new_sql_conn

initialize-connect_each :
    (a : Answers) (count : ℕ) (c : Connections)
    → (initialize a count c).0 ≡ true
    → ((connect_each a count 0 no_connections).0 ≡ true)
      × ((initialize a count c).1.conn_pool ≡ (connect_each a count 0 no_connections).1)
unfolding initialize connect_each
initialize-connect_each a count c ok = elim (Bool-cases (is_some a.env)) [
  | inl e ↦ elim (Bool-cases a.attr) [
    | inl f ↦ (rw (e, f) at ok, rw (e, f) refl)
    | inr f ↦ absurd (ground (arith, rw (e, f) at ok))
  ]
  | inr e ↦ absurd (ground (arith, rw e at ok))
]

-- `Initialize` for `count` threads, where it returns true and no handle that ODBC gave is null: the
-- connection of each thread has the two handles that were allocated for it and is ready for the
-- thread's first job.
pub initialize-ready :
    (a : Answers) (count : ℕ) (c : Connections) (i : ℕ)
    → (initialize a count c).0 ≡ true
    → i < count
    → handle_of (a.stmt i) ≢ 0
    → let pool = (initialize a count c).1.conn_pool in
      (pool i ≡ made a i)
      × (is_ready (record { thread_type = thread_db_worker; worker_thread_id = i }) pool ≡ true)
initialize-ready a count c i ok h stmt =
    let (ok', same) = initialize-connect_each a count c ok in
    let is_made =
      ap (λ p. p i) same
      ∙ connect_each-made a count 0 no_connections (λ j _. refl) ok' i (omega arith)
          (omega (arith, h)) in
    (is_made, rw is_made (ground (arith, stmt)))
