-- ===== src/Database/Jobs.antt =====
-- What the jobs of Homework6/EduServer_IOCP/PlayerDBContext.cpp do with the player's row.
use gsp.Prelude.{
  Effect, ℕ, ◌≡◌, refl, sym, ap, subst, ==_refl, ◌∙◌, fun_ext, Bool, true, Option, none, some,
}
use gsp.Database.State.{
  Thread, SqlConn, Variables, Job, load_player_data, update_player_position_data,
  update_player_comment_data, update_player_valid_data, Statement, sql_load_player,
  sql_update_player_position, sql_update_player_comment, sql_update_player_valid, at_result, Odbc,
  World, M, pure, ◌>>=◌,
}
use gsp.Database.Table.{Table}
use gsp.Database.Laws.{clean, Local, View, reference, reference-IsLawful, IsLawful}
use gsp.Database.{db_helper, delete_db_helper, free_all, bind_result_column_int}
use gsp.Database.Contexts.{
  run_statement, declare_result, has_result, load_player_binds, load_player, run_update,
  position_binds, update_player_position, comment_binds, update_player_comment, valid_binds,
  update_player_valid, sql_execute,
}
use gsp.Database.Simulation.{
  Simulates, seen_after, bind_lem, run_statement_lem, has_result_lem, load_player_binds_lem,
  position_binds_lem, comment_binds_lem, valid_binds_lem,
}
use gsp.Database.Simulating.{seen, sql_execute-seen}
use gsp.Database.Releasing.{is_ready, constructed, db_helper-ready}
use gsp.Database.Single.{
  single, local, local-Agrees, outcome, world, update_rest, bind_single, load_single,
  position_single, comment_single, valid_single,
}

module _ {S : Type 0} where
  abbrev next_of : {A B : Type 0} → (A → Effect S B) → Option (A × S) → Option (B × S)
  next_of f none = none
  next_of f (some (a, w)) = f a w

  then_assoc :
      {A B C : Type 0} (f : A → Effect S B) (g : B → Effect S C) (r : Option (A × S))
      → next_of g (next_of f r) ≡ next_of (λ a w. next_of g (f a w)) r
  then_assoc f g none = refl
  then_assoc f g (some (a, w)) = refl

  assoc :
      {A B C : Type 0} (m : Effect S A) (f : A → Effect S B) (g : B → Effect S C)
      → ((m >>= f) >>= g) ≡ (m >>= λ a. f a >>= g)
  assoc m f g = fun_ext (λ w. then_assoc f g (m w))

-- A job without the constructor and the destructor of its `DBHelper`.
load_body : (o : Odbc) → M o Bool
load_body o = load_player_binds o >>= λ _. run_statement o sql_load_player

update_body : (o : Odbc) → M o (Unit {0}) → Statement → M o Bool
update_body o m s = declare_result o >>= λ _. m >>= λ _. bind_result_column_int o at_result >>= λ _.
    run_statement o s >>= λ fetched. has_result o fetched

around : (o : Odbc) → Thread → M o Bool → M o Bool
around o t body = db_helper o t >>= λ _. body >>= λ b. delete_db_helper o t >>= λ _. pure b

load_player-around : (o : Odbc) (t : Thread) → load_player o t ≡ around o t (load_body o)
unfolding load_player around load_body
load_player-around o t = ap (λ k. db_helper o t >>= λ _. k) (sym (assoc (load_player_binds o) _ _))

run_update-around :
    (o : Odbc) (m : M o (Unit {0})) (s : Statement) (t : Thread)
    → run_update o m s t ≡ around o t (update_body o m s)
unfolding run_update around update_body
run_update-around o m s t =
    let g = λ (b : Bool). delete_db_helper o t >>= λ _. pure b in
    let a₄ = λ (_ : Unit {0}). assoc (run_statement o s) (has_result o) g in
    let a₃ = λ (_ : Unit {0}).
      assoc (bind_result_column_int o at_result) _ g
      ∙ ap (λ k. bind_result_column_int o at_result >>= k) (fun_ext a₄) in
    let a₂ = λ (_ : Unit {0}). assoc m _ g ∙ ap (λ k. m >>= k) (fun_ext a₃) in
    ap (λ k. db_helper o t >>= λ _. declare_result o >>= λ _. k) (sym (a₂ tt))

body : (o : Odbc) → Job → M o Bool
body o load_player_data = load_body o
body o update_player_position_data = update_body o (position_binds o) sql_update_player_position
body o update_player_comment_data = update_body o (comment_binds o) sql_update_player_comment
body o update_player_valid_data = update_body o (valid_binds o) sql_update_player_valid

sql_execute-around :
    (o : Odbc) (job : Job) (t : Thread) → sql_execute o job t ≡ around o t (body o job)
unfolding body update_player_position update_player_comment update_player_valid
sql_execute-around o load_player_data t = load_player-around o t
sql_execute-around o update_player_position_data t = run_update-around o _ _ t
sql_execute-around o update_player_comment_data t = run_update-around o _ _ t
sql_execute-around o update_player_valid_data t = run_update-around o _ _ t

abbrev Ran : Option (Bool × World Local) → Bool × (Variables × Table) → ℕ → Type 0
Ran r out h =
    (s : World Local) × (r ≡ some (out.0, s))
    × (s.variables ≡ out.1.0)
    × (s.driver.1 ≡ out.1.1)
    × (s.helper.current_sql_hstmt ≡ h)

-- On the one statement, from a clean one on.
single-Ran :
    (job : Job) (h : ℕ) (pool : ℕ → SqlConn) (t : Table) (v : Variables)
    → Ran (body single job (world h pool clean t 1 1 v)) (outcome job v t) h
unfolding body load_body update_body update_rest
single-Ran load_player_data h pool t v = (
  _,
  ap (next_of (λ _. run_statement single sql_load_player)) (bind_single h pool t v)
      ∙ load_single h pool t v,
  refl,
  refl,
  refl,
)
single-Ran update_player_position_data h pool t v =
    (_, position_single h pool t v, refl, refl, refl)
single-Ran update_player_comment_data h pool t v = (_, comment_single h pool t v, refl, refl, refl)
single-Ran update_player_valid_data h pool t v = (_, valid_single h pool t v, refl, refl, refl)

update_body-Simulates :
    (m : M reference (Unit {0})) (n : M single (Unit {0})) (s : Statement)
    → Simulates local m n
    → Simulates local (update_body reference m s) (update_body single n s)
unfolding update_body bind_result_column_int
update_body-Simulates m n s sim = bind_lem local _ _ _ _ local-Agrees.declares (λ _.
    bind_lem local m n _ _ sim (λ _.
      bind_lem local _ _ _ _ (local-Agrees.binds_col at_result 4) (λ _.
        bind_lem local _ _ _ _ (run_statement_lem reference single local local-Agrees s)
          (has_result_lem reference single local local-Agrees))))

body-Simulates : (job : Job) → Simulates local (body reference job) (body single job)
unfolding body load_body
body-Simulates load_player_data =
    bind_lem local _ _ _ _ (load_player_binds_lem reference single local local-Agrees)
      (λ _. run_statement_lem reference single local local-Agrees sql_load_player)
body-Simulates update_player_position_data =
    update_body-Simulates _ _ _ (position_binds_lem reference single local local-Agrees)
body-Simulates update_player_comment_data =
    update_body-Simulates _ _ _ (comment_binds_lem reference single local local-Agrees)
body-Simulates update_player_valid_data =
    update_body-Simulates _ _ _ (valid_binds_lem reference single local local-Agrees)

recover :
    (b : Bool) (s : World Local) (r : Option (Bool × World View))
    → seen_after local r ≡ some (b, s)
    → (w : World View) × (r ≡ some (b, w)) × (local w ≡ s)
recover b s none e = cc
recover b s (some (a, w)) e = (
  w,
  ap (λ o. some (elim o [ none ↦ a | some p ↦ p.0 ], w)) e,
  ap (λ o. elim o [ none ↦ local w | some p ↦ p.1 ]) e,
)

-- What a job leaves, where it ends with what it is for: the statement is clean again.
abbrev pub Done :
    (o : Odbc)
    → IsLawful o
    → ℕ
    → Option (Bool × World o.Driver)
    → Bool × (Variables × Table)
    → Type 0
Done o l h r out =
    (w : World o.Driver) × (r ≡ some (out.0, w))
    × (w.variables ≡ out.1.0)
    × ((l.view w.driver).1 ≡ out.1.1)
    × ((l.view w.driver).0 h ≡ clean)

delete-Done :
    (t : Thread) (b : Bool) (w : World View)
    → (w' : World View) × ((delete_db_helper reference t >>= λ _. pure b) w ≡ some (b, w'))
      × (w'.variables ≡ w.variables)
      × (w'.driver.1 ≡ w.driver.1)
      × (w'.driver.0 w.helper.current_sql_hstmt ≡ clean)
unfolding delete_db_helper free_all
delete-Done t b w = (_, refl, refl, refl, rw (==_refl w.helper.current_sql_hstmt) refl)

abbrev pub handle : Thread → (ℕ → SqlConn) → ℕ
handle t pool = (pool t.worker_thread_id).sql_hstmt

reference-Done :
    (job : Job) (t : Thread) (w : World View)
    → is_ready t w.conn_pool ≡ true
    → w.driver.0 (handle t w.conn_pool) ≡ clean
    → Done reference reference-IsLawful
        (handle t w.conn_pool)
        (sql_execute reference job t w)
        (outcome job w.variables w.driver.1)
unfolding around
reference-Done job t w ready fresh =
    let h = handle t w.conn_pool in
    let w₁ = constructed reference t w in
    let b = (outcome job w.variables w.driver.1).0 in
    let (s, e, ev, et, eh) = single-Ran job h w₁.conn_pool w.driver.1 w.variables in
    let same =
      ap (λ c. body single job (world h w₁.conn_pool c w.driver.1 1 1 w.variables)) fresh in
    let (w₂, e₂, l₂) =
      recover b s (body reference job w₁) ((body-Simulates job).run w₁ ∙ same ∙ e) in
    let (w₃, e₃, v₃, t₃, c₃) = delete-Done t b w₂ in
    let started = rw ready at (db_helper-ready reference t w) in
    let handle_kept = ap (λ x. x.helper.current_sql_hstmt) l₂ ∙ eh in
    (
      w₃,
      ap (λ m. m w) (sql_execute-around reference job t)
          ∙ ap
              (next_of
                (λ _. body reference job >>= λ b. delete_db_helper reference t >>= λ _. pure b))
              started
          ∙ ap (next_of (λ b'. delete_db_helper reference t >>= λ _. pure b')) e₂
          ∙ e₃,
      v₃ ∙ ap (λ x. x.variables) l₂ ∙ ev,
      t₃ ∙ ap (λ x. x.driver.1) l₂ ∙ et,
      subst (λ k. w₃.driver.0 k ≡ clean) handle_kept c₃,
    )

recover_seen :
    (o : Odbc) (l : IsLawful o) (b : Bool) (s : World View) (r : Option (Bool × World o.Driver))
    → seen_after (seen o l) r ≡ some (b, s)
    → (w : World o.Driver) × (r ≡ some (b, w)) × (seen o l w ≡ s)
recover_seen o l b s none e = cc
recover_seen o l b s (some (a, w)) e = (
  w,
  ap (λ q. some (elim q [ none ↦ a | some p ↦ p.0 ], w)) e,
  ap (λ q. elim q [ none ↦ seen o l w | some p ↦ p.1 ]) e,
)

pub sql_execute-Done :
    (o : Odbc) (l : IsLawful o) (job : Job) (t : Thread) (w : World o.Driver)
    → is_ready t w.conn_pool ≡ true
    → (l.view w.driver).0 (handle t w.conn_pool) ≡ clean
    → Done o l
        (handle t w.conn_pool)
        (sql_execute o job t w)
        (outcome job w.variables (l.view w.driver).1)
sql_execute-Done o l job t w ready fresh =
    let (s, e, ev, et, ec) = reference-Done job t (seen o l w) ready fresh in
    let b = (outcome job w.variables (l.view w.driver).1).0 in
    let (w', e', ew) =
      recover_seen o l b s (sql_execute o job t w) (sql_execute-seen o l job t w ∙ e) in
    (
      w',
      e',
      ap (λ x. x.variables) ew ∙ ev,
      ap (λ x. x.driver.1) ew ∙ et,
      ap (λ x. x.driver.0 (handle t w.conn_pool)) ew ∙ ec,
    )
