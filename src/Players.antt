-- ===== src/Players.antt =====
-- Players and their buffs, Homework4/EduServer_IOCP: Player.cpp and PlayerManager.cpp. An `int` is
-- its bit pattern; arithmetic on it wraps round.
pub mod Buffs
pub mod Registration
mod Tests
use gsp.Prelude.{
  ℕ, zero, suc, ◌+◌, ◌-◌, ◌%◌, ◌^◌, Bool, true, false, ◌||◌, ltb, leb, ◌==◌, if◌then◌else◌, Option,
  none, some, List, [], ◌∷◌, update,
}

-- `std::map<int, …>`, in the order of the keys.
abbrev pub Map : Type 0
Map = List (ℕ × ℕ)

-- The place of an `int` in their order, the least one at 0.
abbrev pub rank : ℕ → ℕ
rank a = (a + 2 ^ 31) % 2 ^ 32

abbrev pub less : ℕ → ℕ → Bool
less a b = ltb (rank a) (rank b)

abbrev pub find : ℕ → Map → Option ℕ
find key [] = none
find key ((k, v) ∷ m) = if k == key then some v else find key m

-- `insert` keeps the value that a key has.
unfoldable pub insert : ℕ → ℕ → Map → Map
insert key value [] = (key, value) ∷ []
insert key value ((k, v) ∷ m) =
    if k == key
    then (k, v) ∷ m
    else if less key k
    then (key, value) ∷ (k, v) ∷ m
    else (k, v) ∷ insert key value m

-- `operator[]` and an assignment.
unfoldable pub assign : ℕ → ℕ → Map → Map
assign key value [] = (key, value) ∷ []
assign key value ((k, v) ∷ m) =
    if k == key
    then (k, value) ∷ m
    else if less key k
    then (key, value) ∷ (k, v) ∷ m
    else (k, v) ∷ assign key value m

unfoldable pub erase : ℕ → Map → Map
erase key [] = []
erase key ((k, v) ∷ m) = if k == key then m else (k, v) ∷ erase key m

pub record Player : Type 0 where
  pub player_id : ℕ
  pub heart_beat : ℕ
  pub is_alive : Bool
  pub buff_list : Map

-- The players with `PlayerManager`; the map's values are players.
pub record Players : Type 0 where
  pub player : ℕ → Player
  pub current_issue_id : ℕ
  pub player_map : Map

unfoldable pub register_player : ℕ → Players → ℕ × Players
register_player p w =
    let id : ℕ = (w.current_issue_id + 1) % 2 ^ 32 in
    (id, record w { current_issue_id = id; player_map = assign id p w.player_map })

unfoldable pub unregister_player : ℕ → Players → Players
unregister_player id w = record w { player_map = erase id w.player_map }

-- -1
abbrev pub no_id : ℕ
no_id = 2 ^ 32 - 1

unfoldable pub player_reset : ℕ → Players → Players
player_reset p w =
    let w' : Players = unregister_player (w.player p).player_id w in
    record w' {
      player =
          update w'.player p
            (record (w'.player p) { player_id = no_id; heart_beat = no_id; is_alive = false });
    }

-- The constructor; `player_id` and the others hold what the storage happens to hold.
unfoldable pub new_player : ℕ → ℕ → ℕ → Bool → Players → Players
new_player p player_id heart_beat is_alive w = player_reset p (record w {
  player = update w.player p (record {
    player_id = player_id;
    heart_beat = heart_beat;
    is_alive = is_alive;
    buff_list = [];
  });
})

-- `OnTick` changes nothing of the player: what it dispatches has no body yet.
unfoldable pub start : ℕ → ℕ → Players → Players
start p heartbeat w =
    let w₁ : Players = record w {
      player = update w.player p (record (w.player p) { is_alive = true; heart_beat = heartbeat });
    } in
    let (id, w₂) = register_player p w₁ in
    record w₂ { player = update w₂.player p (record (w₂.player p) { player_id = id }) }

unfoldable pub add_buff : ℕ → ℕ → Player → Player
add_buff buff_id duration p = record p { buff_list = insert buff_id duration p.buff_list }

-- The time that is left after a heart beat.
abbrev pub time_left : ℕ → ℕ → ℕ
time_left heart_beat time = (time + 2 ^ 32 - heart_beat) % 2 ^ 32

-- `<= 0`
abbrev pub expired : ℕ → Bool
expired time = time == 0 || leb (2 ^ 31) time

-- The loop of `DecayTickBuff`.
unfoldable pub decay : ℕ → Map → Map
decay heart_beat [] = []
decay heart_beat ((id, time) ∷ m) =
    let rest = decay heart_beat m in
    if expired (time_left heart_beat time) then rest else (id, time_left heart_beat time) ∷ rest

unfoldable pub decay_tick_buff : Player → Player
decay_tick_buff p = record p { buff_list = decay p.heart_beat p.buff_list }
