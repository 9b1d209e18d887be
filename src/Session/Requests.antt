-- ===== src/Session/Requests.antt =====
-- The database contexts of a session and its player, Homework6/EduServer_IOCP: Player.cpp,
-- DBContext.cpp and the `OnSuccess` of PlayerDBContext.cpp.
use gsp.Prelude.{ℕ, Bool, false, some, List, ◌∷◌, ltb, if◌then◌else◌, length}
use gsp.Database.State.{
  Job, load_player_data, update_player_position_data, update_player_comment_data,
  update_player_valid_data, Variables,
}
use gsp.Database.Contexts.{max_name_len, max_comment_len, load_player_data_context}
use gsp.Session.State.{Player, DatabaseJob, M, pure, ◌>>=◌, ◌>>◌, crash_assert, put}
use gsp.Session.{add_ref}

abbrev keep_job : DatabaseJob → M (Unit {0})
keep_job c w = some (tt, record w { jobs = c ∷ w.jobs })

-- `new` with the constructor of `DatabaseJobContext`, which takes a reference.
unfoldable pub new_database_job : ℕ → Job → Variables → M DatabaseJob
new_database_job s job v = do
  add_ref s
  let c : DatabaseJob = record { session_object = s; job = job; variables = v; success = false }
  keep_job c
  pure c

-- `DBManager::PostDatabsaseRequest` has no body.
abbrev pub post_database_request : DatabaseJob → M (Unit {0})
post_database_request c = pure tt

-- `wcscpy_s` into an array of `size` characters ends the program if the text has no room.
abbrev wcscpy_s : ℕ → List ℕ → M (Unit {0})
wcscpy_s size text = crash_assert (ltb (length text) size)

abbrev player_of : ℕ → M Player
player_of s w = some ((w.session s).player, w)

abbrev put_player : ℕ → Player → M (Unit {0})
put_player s p w = put s (record (w.session s) { player = p }) w

unfoldable pub request_load : ℕ → ℕ → M (Unit {0})
request_load s pid = do
  c ← new_database_job s load_player_data (load_player_data_context pid)
  post_database_request c

unfoldable pub request_update_comment : ℕ → List ℕ → M (Unit {0})
request_update_comment s comment = do
  p ← player_of s
  wcscpy_s max_comment_len comment
  c ←
      new_database_job s update_player_comment_data
        (record (load_player_data_context p.player_id) { comment = comment })
  post_database_request c

unfoldable pub request_update_validation : ℕ → Bool → M (Unit {0})
request_update_validation s is_valid = do
  p ← player_of s
  c ←
      new_database_job s update_player_valid_data
        (record (load_player_data_context p.player_id) { is_valid = is_valid })
  post_database_request c

unfoldable pub response_load : ℕ → Player → M (Unit {0})
response_load s answer = do
  wcscpy_s max_name_len answer.player_name
  wcscpy_s max_comment_len answer.comment
  put_player s answer

unfoldable pub response_update_position : ℕ → ℕ → ℕ → ℕ → M (Unit {0})
response_update_position s x y z = do
  p ← player_of s
  put_player s (record p { pos_x = x; pos_y = y; pos_z = z })

unfoldable pub response_update_comment : ℕ → List ℕ → M (Unit {0})
response_update_comment s comment = do
  p ← player_of s
  wcscpy_s max_comment_len comment
  put_player s (record p { comment = comment })

unfoldable pub response_update_validation : ℕ → Bool → M (Unit {0})
response_update_validation s is_valid = do
  p ← player_of s
  put_player s (record p { is_valid = is_valid })

-- `OnSuccess` of the four classes: that of a load has no body.
unfoldable pub on_success : Job → ℕ → Variables → M (Unit {0})
on_success load_player_data s v = pure tt
on_success update_player_position_data s v = response_update_position s v.pos_x v.pos_y v.pos_z
on_success update_player_comment_data s v = response_update_comment s v.comment
on_success update_player_valid_data s v = response_update_validation s v.is_valid

-- `DatabaseJobContext::OnResult`; `OnFail` at most logs.
unfoldable pub on_result : DatabaseJob → M (Unit {0})
on_result c = if c.success then on_success c.job c.session_object c.variables else pure tt
