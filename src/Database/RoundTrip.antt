-- ===== src/Database/RoundTrip.antt =====
-- An update of Homework6/EduServer_IOCP/PlayerDBContext.cpp and then a load of the same player, by
-- one database thread.
use gsp.Prelude.{
  ℕ, zero, suc, ◌≤◌, ◌≡◌, refl, sym, ap, ◌∙◌, subst, Bool, true, none, some, List, [], ◌∷◌, take,
  length, arith,
}
use gsp.Database.State.{Thread, Job, load_player_data, update_player_position_data, Odbc, World}
use gsp.Database.Table.{PlayerRow, find, find-change, set_position}
use gsp.Database.Laws.{clean, IsLawful}
use gsp.Database.Contexts.{load_player_data_context, sql_execute}
use gsp.Database.Releasing.{is_ready, Settled, sql_execute-Settled}
use gsp.Database.Single.{outcome, loaded}
use gsp.Database.Jobs.{handle, sql_execute-Done}

pub take_all {ℓ} : {A : Type ℓ} (n : ℕ) (xs : List A) → length xs ≤ n → take n xs ≡ xs
take_all zero [] h = refl
take_all zero (x ∷ xs) h = absurd (omega arith)
take_all (suc n) [] h = refl
take_all (suc n) (x ∷ xs) h = ap (λ ys. x ∷ ys) (take_all n xs (omega arith))

module _ (o : Odbc) (l : IsLawful o) where
  -- The thread may run the next job.
  abbrev pub IsFree : Thread → World o.Driver → Type 0
  IsFree t w =
      (is_ready t w.conn_pool ≡ true) × ((l.view w.driver).0 (handle t w.conn_pool) ≡ clean)

  -- A job that returns leaves its thread free.
  again :
      (job : Job) (t : Thread) (w w' : World o.Driver) (b : Bool)
      → IsFree t w
      → sql_execute o job t w ≡ some (b, w')
      → (l.view w'.driver).0 (handle t w.conn_pool) ≡ clean
      → IsFree t w'
  again job t w w' b free e fresh =
      let s = subst (Settled o w (sql_execute o job t w)) free.0 (sql_execute-Settled o job t w) in
      let same = ap (λ q. elim q [ none ↦ w | some p ↦ p.1 ]) (sym e ∙ s.2) in
      let kept = ap (λ x. x.conn_pool t.worker_thread_id) same ∙ s.3 t.worker_thread_id in
      (
        ap (λ c. is_ready t (λ _. c)) kept ∙ free.0,
        subst (λ c. (l.view w'.driver).0 c.sql_hstmt ≡ clean) (sym kept) fresh,
      )

  abbrev loading : ℕ → World o.Driver → World o.Driver
  loading uid w = record w { variables = load_player_data_context uid }

  -- What a job has left in the table is what a load reads.
  then_load :
      (job : Job) (t : Thread) (w : World o.Driver) (uid : ℕ) (r : PlayerRow)
      → IsFree t w
      → find uid (outcome job w.variables (l.view w.driver).1).1.1 ≡ some r
      → (w₁ : World o.Driver) × (w₂ : World o.Driver) × (sql_execute o job t w
          ≡ some ((outcome job w.variables (l.view w.driver).1).0, w₁))
        × (sql_execute o load_player_data t (loading uid w₁) ≡ some (true, w₂))
        × (w₂.variables ≡ loaded (some r) (load_player_data_context uid))
  then_load job t w uid r free there =
      let (w₁, e₁, v₁, t₁, c₁) = sql_execute-Done o l job t w free.0 free.1 in
      let free₁ = again job t w w₁ _ free e₁ c₁ in
      let found = subst (λ table. find uid table ≡ some r) (sym t₁) there in
      let (w₂, e₂, v₂, t₂, c₂) =
        sql_execute-Done o l load_player_data t (loading uid w₁) free₁.0 free₁.1 in
      (w₁, w₂, e₁, rw found at e₂, rw found at v₂)

  -- A position saved for a player who is in the table and then loaded into a new context: both jobs
  -- return true, and the context has that position, and the player's comment as far as it has room.
  pub update_player_position-load_player :
      (t : Thread) (w : World o.Driver) (r : PlayerRow)
      → IsFree t w
      → find w.variables.player_id (l.view w.driver).1 ≡ some r
      → (w₁ : World o.Driver) × (w₂ : World o.Driver) × (sql_execute o update_player_position_data t
            w
          ≡ some (true, w₁))
        × (sql_execute o load_player_data t (loading w.variables.player_id w₁) ≡ some (true, w₂))
        × (w₂.variables.pos_x ≡ w.variables.pos_x)
        × (w₂.variables.pos_y ≡ w.variables.pos_y)
        × (w₂.variables.pos_z ≡ w.variables.pos_z)
        × (w₂.variables.comment ≡ elim r.note [ none ↦ [] | some s ↦ take 255 s ])
  update_player_position-load_player t w r free there =
      let uid = w.variables.player_id in
      let set = set_position w.variables.pos_x w.variables.pos_y w.variables.pos_z in
      let (w₁, w₂, e₁, e₂, v) =
        then_load update_player_position_data t w uid (set r) free
          (find-change set uid (l.view w.driver).1 r there) in
      (
        w₁,
        w₂,
        rw there at e₁,
        e₂,
        ap (λ x. x.pos_x) v,
        ap (λ x. x.pos_y) v,
        ap (λ x. x.pos_z) v,
        ap (λ x. x.comment) v,
      )
