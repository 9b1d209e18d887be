-- ===== src/Database/Simulation.antt =====
-- Jobs of Homework6/EduServer_IOCP/PlayerDBContext.cpp over two drivers, the second of which has
-- what is of interest of the first.
use gsp.Prelude.{
  Effect, ℕ, List, ◌≡◌, refl, sym, subst, ap, ◌∙◌, Bool, true, false, Option, none, some,
  if◌then◌else◌, length,
}
use gsp.Database.State.{
  Field, at_player_id, at_pos_x, at_pos_y, at_pos_z, at_is_valid, at_player_name, at_comment,
  Statement, Odbc, World, M, pure, ◌>>=◌, ◌>>◌, crash_assert,
}
use gsp.Database.Laws.{type_of}
use gsp.Database.{
  execute, fetch_row, bind_param, bind_result_column, bind_param_int, bind_param_float,
  bind_param_bool, bind_param_text, bind_result_column_float, bind_result_column_bool,
  bind_result_column_text,
}
use gsp.Database.Contexts.{
  run_statement, declare_result, has_result, load_player_binds, position_binds, comment_binds,
  valid_binds,
}

module _ {S T : Type 0} (seen : S → T) where
  abbrev pub seen_after : {A : Type 0} → Option (A × S) → Option (A × T)
  seen_after none = none
  seen_after (some (a, w)) = some (a, seen w)

  pub record Simulates {A : Type 0} (m : Effect S A) (n : Effect T A) : Type 0 where
    pub run : (w : S) → seen_after (m w) ≡ n (seen w)

  -- Both sides go on with what they have.
  seen-then :
      {A B : Type 0} (f : A → Effect S B) (g : A → Effect T B)
      → ((a : A) → Simulates (f a) (g a))
      → (r : Option (A × S))
      → seen_after (elim r [ none ↦ none | some (a, w) ↦ f a w ])
        ≡ elim (seen_after r) [ none ↦ none | some (a, w) ↦ g a w ]
  seen-then f g s none = refl
  seen-then f g s (some (a, w)) = (s a).run w

  pub bind_lem :
      {A B : Type 0} (m : Effect S A) (n : Effect T A) (f : A → Effect S B) (g : A → Effect T B)
      → Simulates m n
      → ((a : A) → Simulates (f a) (g a))
      → Simulates (m >>= f) (n >>= g)
  bind_lem m n f g s t = record {
    run = λ w.
        seen-then f g t (m w) ∙ ap (λ r. elim r [ none ↦ none | some (a, w') ↦ g a w' ]) (s.run w);
  }

  pub pure_lem : {A : Type 0} (a : A) → Simulates (pure a) (pure a)
  pure_lem a = record { run = λ w. refl }

  pub assert_then :
      {A : Type 0} (b : Bool) (m : Effect S A) (n : Effect T A)
      → Simulates m n
      → Simulates (crash_assert b >> m) (crash_assert b >> n)
  assert_then true m n s = record { run = s.run }
  assert_then false m n s = record { run = λ w. refl }

  if_lem :
      (b : Bool) (m : Effect S Bool) (n : Effect T Bool)
      → Simulates m n
      → Simulates (if b then m else pure false) (if b then n else pure false)
  if_lem true m n s = record { run = s.run }
  if_lem false m n s = record { run = λ w. refl }

-- The calls of one driver look like those of the other.
pub record Agrees (o p : Odbc) (seen : World o.Driver → World p.Driver) : Type 0 where
  pub variables : (w : World o.Driver) → (seen w).variables ≡ w.variables
  pub declares : Simulates seen (declare_result o) (declare_result p)
  pub binds_param :
      (f : Field) (size : ℕ)
      → Simulates seen (bind_param o (type_of f) size f) (bind_param p (type_of f) size f)
  pub binds_col :
      (f : Field) (size : ℕ)
      → Simulates seen
          (bind_result_column o (type_of f) size f)
          (bind_result_column p (type_of f) size f)
  pub executes : (s : Statement) → Simulates seen (execute o s) (execute p s)
  pub fetches : Simulates seen (fetch_row o) (fetch_row p)

module _ (o p : Odbc) (seen : World o.Driver → World p.Driver) (c : Agrees o p seen) where
  open c use {binds_param, binds_col}

  pub run_statement_lem : (s : Statement) → Simulates seen (run_statement o s) (run_statement p s)
  unfolding run_statement
  run_statement_lem s =
      bind_lem seen (execute o s) (execute p s) _ _ (c.executes s)
        (λ ok. if_lem seen ok (fetch_row o) (fetch_row p) c.fetches)

  pub has_result_lem : (b : Bool) → Simulates seen (has_result o b) (has_result p b)
  has_result_lem b = record { run = λ w. rw (c.variables w) refl }

  pub load_player_binds_lem : Simulates seen (load_player_binds o) (load_player_binds p)
  unfolding load_player_binds bind_param_int bind_result_column_text bind_result_column_float
      bind_result_column_bool
  load_player_binds_lem = bind_lem seen _ _ _ _ (binds_param at_player_id 10) (λ _.
      bind_lem seen _ _ _ _ (binds_col at_player_name 64) (λ _.
        bind_lem seen _ _ _ _ (binds_col at_pos_x 4) (λ _.
          bind_lem seen _ _ _ _ (binds_col at_pos_y 4) (λ _.
            bind_lem seen _ _ _ _ (binds_col at_pos_z 4) (λ _.
              bind_lem seen _ _ _ _ (binds_col at_is_valid 1) (λ _. binds_col at_comment 512))))))

  pub position_binds_lem : Simulates seen (position_binds o) (position_binds p)
  unfolding position_binds bind_param_int bind_param_float
  position_binds_lem = bind_lem seen _ _ _ _ (binds_param at_player_id 10) (λ _.
      bind_lem seen _ _ _ _ (binds_param at_pos_x 15) (λ _.
        bind_lem seen _ _ _ _ (binds_param at_pos_y 15)
          (λ _. bind_lem seen _ _ _ _ (binds_param at_pos_z 15) (λ _. pure_lem seen tt))))

  bind_text : List ℕ → M p (Unit {0})
  bind_text text =
      bind_param_int p at_player_id >>= λ _. bind_param_text p at_comment text >>= λ _. pure tt

  pub comment_binds_lem : Simulates seen (comment_binds o) (comment_binds p)
  unfolding comment_binds bind_text bind_param_int bind_param_text
  comment_binds_lem = record {
    run = λ w.
        subst (λ v. seen_after seen (comment_binds o w) ≡ bind_text v.comment (seen w))
          (sym (c.variables w))
          ((bind_lem seen _ _ _ _ (binds_param at_player_id 10) (λ _.
              bind_lem seen _ _ _ _ (binds_param at_comment (length w.variables.comment))
                (λ _. pure_lem seen tt))).run
            w);
  }

  pub valid_binds_lem : Simulates seen (valid_binds o) (valid_binds p)
  unfolding valid_binds bind_param_int bind_param_bool
  valid_binds_lem =
      bind_lem seen _ _ _ _ (binds_param at_player_id 10)
        (λ _. bind_lem seen _ _ _ _ (binds_param at_is_valid 3) (λ _. pure_lem seen tt))
