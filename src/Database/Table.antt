-- ===== src/Database/Table.antt =====
-- The stored procedures of Homework6/SQL/GameDB.sql that the contexts call, on the rows of
-- PlayerTable by their `playerUID`.
use gsp.Prelude.{
  ℕ, ◌+◌, ◌≡◌, ◌≢◌, refl, arith, Option, none, some, List, [], ◌∷◌, ◌==◌, if◌then◌else◌, take,
}

-- `valid` is a TINYINT; `comment` may be NULL. A FLOAT that a `float` is stored in is its bit
-- pattern.
pub record PlayerRow : Type 0 where
  pub name : List ℕ
  pub x : ℕ
  pub y : ℕ
  pub z : ℕ
  pub valid : ℕ
  pub note : Option (List ℕ)

abbrev pub Table : Type 0
Table = List (ℕ × PlayerRow)

-- The values of a row that a statement selects.
pub data Value : Type 0 where
  number : ℕ → Value
  text : List ℕ → Value
  null : Value

abbrev pub find : ℕ → Table → Option PlayerRow
find uid [] = none
find uid ((k, r) ∷ rs) = if k == uid then some r else find uid rs

-- `UPDATE PlayerTable SET … WHERE playerUID=@playerUID`
abbrev pub change : (PlayerRow → PlayerRow) → ℕ → Table → Table
change set uid [] = []
change set uid ((k, r) ∷ rs) =
    if k == uid then (k, set r) ∷ change set uid rs else (k, r) ∷ change set uid rs

-- `@@ROWCOUNT` after it.
abbrev pub row_count : ℕ → Table → ℕ
row_count uid [] = 0
row_count uid ((k, r) ∷ rs) = if k == uid then row_count uid rs + 1 else row_count uid rs

-- A procedure's rows and the table after it.
abbrev pub Answer : Type 0
Answer = List (List Value) × Table

-- `UPDATE … SELECT @@ROWCOUNT`
abbrev update_and_count : (PlayerRow → PlayerRow) → ℕ → Table → Answer
update_and_count set uid t = ((number (row_count uid t) ∷ []) ∷ [], change set uid t)

abbrev pub value_of : Option (List ℕ) → Value
value_of none = null
value_of (some s) = text s

abbrev row_values : PlayerRow → List Value
row_values r =
    text r.name ∷ number r.x ∷ number r.y ∷ number r.z ∷ number r.valid ∷ value_of r.note ∷ []

unfoldable pub sp_load_player : ℕ → Table → Answer
sp_load_player uid t = (elim (find uid t) [ none ↦ [] | some r ↦ row_values r ∷ [] ], t)

abbrev pub set_position : ℕ → ℕ → ℕ → PlayerRow → PlayerRow
set_position x y z r = record r { x = x; y = y; z = z }

abbrev pub set_valid : ℕ → PlayerRow → PlayerRow
set_valid v r = record r { valid = v }

-- An NVARCHAR(256) has the first 256 characters.
abbrev pub set_comment : List ℕ → PlayerRow → PlayerRow
set_comment s r = record r { note = some (take 256 s) }

unfoldable pub sp_update_player_position : ℕ → ℕ → ℕ → ℕ → Table → Answer
sp_update_player_position uid x y z = update_and_count (set_position x y z) uid

unfoldable pub sp_update_player_comment : ℕ → List ℕ → Table → Answer
sp_update_player_comment uid s = update_and_count (set_comment s) uid

unfoldable pub sp_update_player_valid : ℕ → ℕ → Table → Answer
sp_update_player_valid uid v = update_and_count (set_valid v) uid

-- The key is unique.
abbrev pub Unique : Table → Type 0
Unique [] = Unit {0}
Unique ((k, r) ∷ rs) = (find k rs ≡ none) × Unique rs

pub find-change :
    (set : PlayerRow → PlayerRow) (uid : ℕ) (t : Table) (r : PlayerRow)
    → find uid t ≡ some r
    → find uid (change set uid t) ≡ some (set r)
find-change set uid [] r h = cc
find-change set uid (e ∷ t) r h = ground (arith, find-change set uid t r)

pub find-change_ne :
    (set : PlayerRow → PlayerRow) (uid other : ℕ) (t : Table)
    → uid ≢ other
    → find other (change set uid t) ≡ find other t
find-change_ne set uid other [] h = refl
find-change_ne set uid other (e ∷ t) h = ground (arith, find-change_ne set uid other t h)

pub row_count-none : (uid : ℕ) (t : Table) → find uid t ≡ none → row_count uid t ≡ 0
row_count-none uid [] h = refl
row_count-none uid (e ∷ t) h = ground (arith, row_count-none uid t)

pub row_count-some :
    (uid : ℕ) (t : Table) (r : PlayerRow) → find uid t ≡ some r → row_count uid t ≢ 0
row_count-some uid [] r h = cc
row_count-some uid (e ∷ t) r h = ground (arith, row_count-some uid t r)
