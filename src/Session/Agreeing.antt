-- ===== src/Session/Agreeing.antt =====
-- A player's fields and the player's row: an update of
-- Homework6/EduServer_IOCP/PlayerDBContext.cpp, and its `OnResult` for the session that asked for
-- it.
use gsp.Prelude.{ℕ, ◌≡◌, true, some}
use gsp.Database.State.{
  Thread, Variables, Job, load_player_data, update_player_position_data, update_player_comment_data,
  update_player_valid_data, Odbc, World,
}
use gsp.Database.Table.{PlayerRow, find, set_position, set_comment, set_valid}
use gsp.Database.Laws.{number_of, IsLawful}
use gsp.Database.Contexts.{sql_execute}
use gsp.Session.State.{Player, DatabaseJob, Sessions}
use gsp.Session.Requests.{on_result}

-- What an update of this class has set is the same in both, where `old` and `before` are what they
-- were; after a load, whose `OnSuccess` does nothing, both are the same as before.
abbrev pub Agree : Job → Player → PlayerRow → Player → PlayerRow → Type 0
Agree load_player_data old before p r = (p ≡ old) × (r ≡ before)
Agree update_player_position_data _ _ p r = (p.pos_x ≡ r.x) × (p.pos_y ≡ r.y) × (p.pos_z ≡ r.z)
Agree update_player_comment_data _ _ p r = r.note ≡ some p.comment
Agree update_player_valid_data _ _ p r = r.valid ≡ number_of p.is_valid

abbrev pub successful : ℕ → Job → Variables → DatabaseJob
successful s job v = record { session_object = s; job = job; variables = v; success = true }

-- The row after a job that found it.
abbrev updated : Job → Variables → PlayerRow → PlayerRow
updated load_player_data v r = r
updated update_player_position_data v r = set_position v.pos_x v.pos_y v.pos_z r
updated update_player_comment_data v r = set_comment v.comment r
updated update_player_valid_data v r = set_valid (number_of v.is_valid) r

-- The same, as the two follow each other.
abbrev pub Stored :
    (o : Odbc) → IsLawful o → Job → Thread → World o.Driver → PlayerRow → ℕ → Sessions → Type 0
Stored o l job t w r s g =
    (w' : World o.Driver) × (g' : Sessions) × (r' : PlayerRow) × (sql_execute o job t w
      ≡ some (true, w'))
    × (on_result (successful s job w'.variables) g ≡ some (tt, g'))
    × (find w.variables.player_id (l.view w'.driver).1 ≡ some r')
    × Agree job (g.session s).player r (g'.session s).player r'
