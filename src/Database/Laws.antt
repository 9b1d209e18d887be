-- ===== src/Database/Laws.antt =====
-- What ODBC's documentation says of the calls of Homework6/EduServer_IOCP/DBHelper.cpp, for a
-- database that answers, and a driver that does just that.
use gsp.Prelude.{
  ℕ, ◌+◌, ◌-◌, ◌*◌, ◌/◌, ◌^◌, length, ◌≡◌, refl, Bool, true, false, not, Option, none, some, List,
  [], ◌∷◌, ◌==◌, if◌then◌else◌, take,
}
use gsp.Database.State.{
  Variables, Field, at_player_id, at_pos_x, at_pos_y, at_pos_z, at_is_valid, at_player_name,
  at_comment, at_result, Indicator, at_local_len, CType, sql_c_long, sql_c_float, sql_c_tinyint,
  sql_c_wchar, Statement, sql_load_player, sql_update_player_position, sql_update_player_comment,
  sql_update_player_valid, SqlReturn, sql_success, sql_no_data, sql_error, FreeOption, sql_unbind,
  sql_reset_params, sql_close, Odbc, update,
}
use gsp.Database.Table.{
  Table, Value, number, text, null, Answer, sp_load_player, sp_update_player_position,
  sp_update_player_comment, sp_update_player_valid,
}
use gsp.Database.{succeeded}

-- What a column is bound to: a variable with its size, and its length.
abbrev pub Column : Type 0
Column = Field × (ℕ × Indicator)

-- What a statement handle has: its parameters and columns by their numbers, the last bound first,
-- and the rows that are left of its cursor, `none` where no cursor is open.
pub record Stmt : Type 0 where
  pub params : List (ℕ × Field)
  pub cols : List (ℕ × Column)
  pub rows : Option (List (List Value))

abbrev pub clean : Stmt
clean = record { params = []; cols = []; rows = none }

-- The C type of a variable.
abbrev pub type_of : Field → CType
type_of at_player_id = sql_c_long
type_of at_pos_x = sql_c_float
type_of at_pos_y = sql_c_float
type_of at_pos_z = sql_c_float
type_of at_is_valid = sql_c_tinyint
type_of at_player_name = sql_c_wchar
type_of at_comment = sql_c_wchar
type_of at_result = sql_c_long

abbrev pub find {ℓ} : {A : Type ℓ} → ℕ → List (ℕ × A) → Option A
find i [] = none
find i ((j, a) ∷ xs) = if j == i then some a else find i xs

abbrev pub number_of : Bool → ℕ
number_of true = 1
number_of false = 0

-- A variable's value.
abbrev read : Variables → Field → Value
read v at_player_id = number v.player_id
read v at_pos_x = number v.pos_x
read v at_pos_y = number v.pos_y
read v at_pos_z = number v.pos_z
read v at_is_valid = number (number_of v.is_valid)
read v at_player_name = text v.player_name
read v at_comment = text v.comment
read v at_result = number v.result

-- A value goes into a buffer of `size` bytes: a text with its 0 at the end. NULL leaves the buffer.
abbrev write : Field → ℕ → Value → Variables → Variables
write at_player_id size (number a) v = record v { player_id = a }
write at_pos_x size (number a) v = record v { pos_x = a }
write at_pos_y size (number a) v = record v { pos_y = a }
write at_pos_z size (number a) v = record v { pos_z = a }
write at_is_valid size (number a) v = record v { is_valid = not (a == 0) }
write at_result size (number a) v = record v { result = a }
write at_player_name size (text s) v = record v { player_name = take (size / 2 - 1) s }
write at_comment size (text s) v = record v { comment = take (size / 2 - 1) s }
write _ size _ v = v

-- SQL_NULL_DATA, which is -1, as the bit pattern of a SQLLEN of 64 bits.
abbrev pub sql_null_data : ℕ
sql_null_data = 2 ^ 64 - 1

-- The length of a value in bytes, of a text the whole of it, also where it does not fit.
abbrev length_of : Field → Value → ℕ
length_of f (text s) = 2 * length s
length_of f null = sql_null_data
length_of at_is_valid (number a) = 1
length_of _ (number a) = 4

abbrev write_length : Indicator → ℕ → Variables → Variables
write_length at_local_len n v = record v { stray = n ∷ v.stray }

-- A value of a row, with its length, goes where its column is bound.
abbrev write_column : Column → Value → Variables → Variables
write_column (f, (size, indicator)) a v = write_length indicator (length_of f a) (write f size a v)

abbrev value_at : Variables → List (ℕ × Field) → ℕ → Value
value_at v params i = elim (find i params) [ none ↦ null | some f ↦ read v f ]

-- The columns of a row go where they are bound, from the number `j` on.
unfoldable pub write_row : List (ℕ × Column) → ℕ → List Value → Variables → Variables
write_row cols j [] v = v
write_row cols j (a ∷ rest) v =
    write_row cols (j + 1) rest (elim (find j cols) [ none ↦ v | some c ↦ write_column c a v ])

-- The call of a procedure with the values that are bound; `none` where one is missing.
abbrev call_load : Value → Table → Option Answer
call_load (number uid) t = some (sp_load_player uid t)
call_load _ t = none

abbrev call_position : Value → Value → Value → Value → Table → Option Answer
call_position (number uid) (number x) (number y) (number z) t =
    some (sp_update_player_position uid x y z t)
call_position _ _ _ _ t = none

abbrev call_comment : Value → Value → Table → Option Answer
call_comment (number uid) (text s) t = some (sp_update_player_comment uid s t)
call_comment _ _ t = none

abbrev call_valid : Value → Value → Table → Option Answer
call_valid (number uid) (number a) t = some (sp_update_player_valid uid a t)
call_valid _ _ t = none

abbrev call : Statement → (ℕ → Value) → Table → Option Answer
call sql_load_player a = call_load (a 1)
call sql_update_player_position a = call_position (a 1) (a 2) (a 3) (a 4)
call sql_update_player_comment a = call_comment (a 1) (a 2)
call sql_update_player_valid a = call_valid (a 1) (a 2)

-- One statement with the table.
abbrev pub Local : Type 0
Local = Stmt × Table

abbrev pub add_param : ℕ → Field → Stmt → Stmt
add_param i f s = record s { params = (i, f) ∷ s.params }

abbrev pub add_col : ℕ → Field → ℕ → Indicator → Stmt → Stmt
add_col j f size indicator s = record s { cols = (j, (f, (size, indicator))) ∷ s.cols }

abbrev answered : Option Answer → Local → SqlReturn × Local
answered none d = (sql_error, d)
answered (some (rows, t)) d = (sql_success, (record (d.0) { rows = some rows }, t))

-- A statement whose cursor is open is an error (24000), and so is a fetch where none is.
abbrev pub executed : Statement → Variables → Local → SqlReturn × Local
executed s v d = elim d.0.rows [
  | none ↦ answered (call s (value_at v d.0.params) d.1) d
  | some rows ↦ (sql_error, d)
]

abbrev next_row : Option (List (List Value)) → Variables → Stmt → SqlReturn × (Variables × Stmt)
next_row none v s = (sql_error, (v, s))
next_row (some []) v s = (sql_no_data, (v, s))
next_row (some (r ∷ rs)) v s = (sql_success, (write_row s.cols 1 r v, record s { rows = some rs }))

abbrev pub fetched : Variables → Stmt → SqlReturn × (Variables × Stmt)
fetched v s = next_row s.rows v s

abbrev pub freed : FreeOption → Stmt → Stmt
freed sql_unbind s = record s { cols = [] }
freed sql_reset_params s = record s { params = [] }
freed sql_close s = record s { rows = none }

-- All the statements with the table.
abbrev pub View : Type 0
View = (ℕ → Stmt) × Table

abbrev at_stmt : ℕ → (Stmt → Stmt) → View → View
at_stmt h f d = (update d.0 h (f (d.0 h)), d.1)

abbrev executed_at : ℕ → Statement → Variables → View → SqlReturn × View
executed_at h s v d =
    let r : SqlReturn × Local = executed s v (d.0 h, d.1) in (r.0, (update d.0 h r.1.0, r.1.1))

abbrev fetched_at : ℕ → Variables → View → SqlReturn × (Variables × View)
fetched_at h v d =
    let r : SqlReturn × (Variables × Stmt) = fetched v (d.0 h) in
    (r.0, (r.1.0, (update d.0 h r.1.1, d.1)))

abbrev pub reference : Odbc
reference = record {
  Driver = View;
  bind_parameter = λ h i type f size d. (sql_success, at_stmt h (add_param i f) d);
  bind_col = λ h j type f size indicator d. (sql_success, at_stmt h (add_col j f size indicator) d);
  exec_direct = executed_at;
  fetch = fetched_at;
  free_stmt = λ h option d. at_stmt h (freed option) d;
}

-- The documented behaviour, of what can be seen of a driver. A parameter or a column has the C
-- type of its variable; a call that succeeds may warn.
pub record IsLawful (o : Odbc) : Type 0 where
  pub view : o.Driver → View
  pub binds_parameter :
      (h i : ℕ) (f : Field) (size : ℕ) (d : o.Driver)
      → let r = o.bind_parameter h i (type_of f) f size d in
        (succeeded r.0 ≡ true) × (view r.1 ≡ at_stmt h (add_param i f) (view d))
  pub binds_col :
      (h j : ℕ) (f : Field) (size : ℕ) (indicator : Indicator) (d : o.Driver)
      → let r = o.bind_col h j (type_of f) f size indicator d in
        view r.1 ≡ at_stmt h (add_col j f size indicator) (view d)
  pub executes :
      (h : ℕ) (s : Statement) (v : Variables) (d : o.Driver)
      → let r = o.exec_direct h s v d in
        let a = executed_at h s v (view d) in (succeeded r.0 ≡ succeeded a.0) × (view r.1 ≡ a.1)
  pub fetches :
      (h : ℕ) (v : Variables) (d : o.Driver)
      → let r = o.fetch h v d in
        let a = fetched_at h v (view d) in
        (succeeded r.0 ≡ succeeded a.0) × (r.1.0 ≡ a.1.0) × (view r.1.1 ≡ a.1.1)
  pub frees :
      (h : ℕ) (option : FreeOption) (d : o.Driver)
      → view (o.free_stmt h option d) ≡ at_stmt h (freed option) (view d)

abbrev pub reference-IsLawful : IsLawful reference
reference-IsLawful = record {
  view = λ d. d;
  binds_parameter = λ h i f size d. (refl, refl);
  binds_col = λ h j f size indicator d. refl;
  executes = λ h s v d. (refl, refl);
  fetches = λ h v d. (refl, refl, refl);
  frees = λ h option d. refl;
}
