-- ===== src/Players/Tests.antt =====
-- A player with a heart beat of a second and two buffs, and two players that are started.
use gsp.Prelude.{◌≡◌, refl, true, false, ◌↔◌, some, [], ◌∷◌, arith}
use gsp.Players.{
  Player, Players, find, insert, assign, erase, decay, add_buff, decay_tick_buff, start,
  register_player, player_reset, unregister_player,
}
use gsp.Players.Registration.{Reachable, created, starting, resetting, found-Reachable}
use gsp.Players.Buffs.{decays, add_buff-decays}

abbrev buffed : Player
buffed = record {
  player_id = 3;
  heart_beat = 1000;
  is_alive = true;
  buff_list = (200, 1500) ∷ (400, 9000) ∷ [];
}

-- The buff 200 keeps the 1500 that it had.
kept : find 200 (decays 1 (add_buff 200 3000 buffed)).buff_list ≡ some 500
unfolding add_buff insert decay_tick_buff decay
kept = refl

-- A new buff of three seconds has one left after two calls.
add_buff-decays_example : find 300 (decays 2 (add_buff 300 3000 buffed)).buff_list ≡ some 1000
add_buff-decays_example =
    add_buff-decays 300 3000 2 buffed (omega arith, (omega arith, tt), (omega arith, tt, tt))
      (omega arith) (omega arith) (omega arith) (omega arith) (omega arith)

-- Player 0 starts, player 1 starts, and player 0 is reset.
abbrev nobody : Players
nobody = record {
  player = λ _. record buffed { is_alive = false };
  current_issue_id = 0;
  player_map = [];
}

abbrev two_started : Players
two_started = start 1 1000 (start 0 1000 nobody)

abbrev one_left : Players
one_left = player_reset 0 two_started

one_left-Reachable : Reachable one_left
unfolding start register_player
one_left-Reachable =
    resetting 0
      (starting 1 1000 (starting 0 1000 (created {w = nobody} refl (λ p. refl)) refl (omega arith))
        refl (omega arith))
      refl

found-Reachable_example :
    (find 2 one_left.player_map ≡ some 1)
    ↔ (((one_left.player 1).is_alive ≡ true) × ((one_left.player 1).player_id ≡ 2))
found-Reachable_example = found-Reachable 2 1 one_left-Reachable

-- The id of player 1 is found.
second_found : find 2 one_left.player_map ≡ some 1
unfolding start register_player assign player_reset unregister_player erase
second_found = refl
