-- ===== src/Players/Registration.antt =====
-- `PlayerManager` and the players that start and are reset.
use mathlib.Core.Option.{some-injective}
use gsp.Prelude.{
  ℕ, ◌+◌, ◌%◌, ◌^◌, ◌≤◌, ◌<◌, ◌≡◌, ◌≢◌, ◌↔◌, refl, sym, ap, ◌∙◌, true, false, none, some, [], ◌∷◌,
  arith, dec_lt, ℕ_discrete,
}
use gsp.Players.{
  Map, Players, rank, find, assign, erase, register_player, unregister_player, player_reset, start,
}
use gsp.Players.Buffs.{Above, IsMap, Above-trans, find-Above}

Above-assign :
    (j key value : ℕ) (m : Map) → rank j < rank key → Above j m → Above j (assign key value m)
unfolding assign
Above-assign j key value [] lt a = (lt, tt)
Above-assign j key value ((k, v) ∷ m) lt a =
    ground (arith, Above-assign j key value m lt a.1, lt, a)

Above-erase : (j key : ℕ) (m : Map) → Above j m → Above j (erase key m)
unfolding erase
Above-erase j key [] a = tt
Above-erase j key ((k, v) ∷ m) a = ground (arith, Above-erase j key m a.1, a)

assign-IsMap : (key value : ℕ) (m : Map) → key < 2 ^ 32 → IsMap m → IsMap (assign key value m)
unfolding assign
assign-IsMap key value [] small d = (small, tt, tt)
assign-IsMap key value ((k, v) ∷ m) small d = elim (ℕ_discrete k key) [
  | yes e ↦ ground (arith, d)
  | no ne ↦ elim (dec_lt (rank key) (rank k)) [
    | yes lt ↦ ground (arith, d, Above-trans key k m lt d.1)
    | no ge ↦
        let gt : rank k < rank key = omega (arith, d.0) in
        ground (arith, d, Above-assign k key value m gt d.1, assign-IsMap key value m small d.2)
  ]
]

erase-IsMap : (key : ℕ) (m : Map) → IsMap m → IsMap (erase key m)
unfolding erase
erase-IsMap key [] d = tt
erase-IsMap key ((k, v) ∷ m) d = ground (arith, d, Above-erase k key m d.1, erase-IsMap key m d.2)

find-assign : (key value : ℕ) (m : Map) → find key (assign key value m) ≡ some value
unfolding assign
find-assign key value [] = ground arith
find-assign key value ((k, v) ∷ m) = ground (arith, find-assign key value m)

find-assign_other : (k key value : ℕ) (m : Map) → key ≢ k → find k (assign key value m) ≡ find k m
unfolding assign
find-assign_other k key value [] ne = ground arith
find-assign_other k key value ((j, v) ∷ m) ne = ground (arith, find-assign_other k key value m ne)

find-erase : (key : ℕ) (m : Map) → IsMap m → find key (erase key m) ≡ none
unfolding erase
find-erase key [] d = refl
find-erase key ((k, v) ∷ m) d = elim (ℕ_discrete k key) [
  | yes e ↦ ground (arith, find-Above k m d.1)
  | no ne ↦ ground (arith, find-erase key m d.2)
]

find-erase_other : (k key : ℕ) (m : Map) → key ≢ k → find k (erase key m) ≡ find k m
unfolding erase
find-erase_other k key [] ne = refl
find-erase_other k key ((j, v) ∷ m) ne = ground (arith, find-erase_other k key m ne)

-- The map has exactly the players that are alive, each under its id, and no id above the last one
-- that was issued.
pub record Registered (w : Players) : Type 0 where
  pub map : IsMap w.player_map
  pub alive :
      (p : ℕ) → (w.player p).is_alive ≡ true → find (w.player p).player_id w.player_map ≡ some p
  pub found :
      (id p : ℕ)
      → find id w.player_map ≡ some p
      → ((w.player p).is_alive ≡ true) × ((w.player p).player_id ≡ id) × (id ≤ w.current_issue_id)

start-Registered :
    (p heartbeat : ℕ) (w : Players)
    → Registered w
    → (w.player p).is_alive ≡ false
    → w.current_issue_id + 1 < 2 ^ 32
    → Registered (start p heartbeat w)
unfolding start register_player
start-Registered p heartbeat w r off few =
    let id : ℕ = (w.current_issue_id + 1) % 2 ^ 32 in
    let next : id ≡ w.current_issue_id + 1 = omega arith in
    record {
      map = assign-IsMap id p w.player_map (omega arith) r.map;
      alive = λ q on. elim (ℕ_discrete p q) [
        | yes e ↦ ground (arith, e, find-assign id p w.player_map)
        | no ne ↦
            let live : (w.player q).is_alive ≡ true = ground (arith, on) in
            let at : find (w.player q).player_id w.player_map ≡ some q = r.alive q live in
            let (_, _, old) = r.found (w.player q).player_id q at in
            ground (
              arith,
              at,
              find-assign_other (w.player q).player_id id p w.player_map (omega (arith, old, next)),
            )
      ];
      found = λ k q e. elim (ℕ_discrete id k) [
        | yes same ↦
            let self : some p ≡ some q =
              sym (find-assign id p w.player_map)
              ∙ ap (λ j. find j (assign id p w.player_map)) same
              ∙ e in
            ground (arith, self, same)
        | no ne ↦
            let (live, name, old) =
              r.found k q (sym (find-assign_other k id p w.player_map ne) ∙ e) in
            ground (arith, live, name, old, next, off)
      ];
    }

player_reset-Registered :
    (p : ℕ) (w : Players)
    → Registered w
    → (w.player p).is_alive ≡ true
    → Registered (player_reset p w)
unfolding player_reset unregister_player
player_reset-Registered p w r on = record {
  map = erase-IsMap (w.player p).player_id w.player_map r.map;
  alive = λ q live. elim (ℕ_discrete p q) [
    | yes e ↦ absurd (ground (arith, live, e))
    | no ne ↦
        let was : (w.player q).is_alive ≡ true = ground (arith, live) in
        let at : find (w.player q).player_id w.player_map ≡ some q = r.alive q was in
        let at' : find (w.player p).player_id w.player_map ≡ some p = r.alive p on in
        let apart : (w.player p).player_id ≢ (w.player q).player_id =
          λ e. ne (some-injective p q (sym at' ∙ ap (λ j. find j w.player_map) e ∙ at)) in
        ground (
          arith,
          at,
          find-erase_other (w.player q).player_id (w.player p).player_id w.player_map apart,
        )
  ];
  found = λ k q e. elim (ℕ_discrete (w.player p).player_id k) [
    | yes same ↦
        let gone : find k (erase (w.player p).player_id w.player_map) ≡ none =
          ap (λ j. find j (erase (w.player p).player_id w.player_map)) (sym same)
          ∙ find-erase (w.player p).player_id w.player_map r.map in
        absurd (ground (arith, gone, e))
    | no ne ↦
        let (live, name, old) =
          r.found k q (sym (find-erase_other k (w.player p).player_id w.player_map ne) ∙ e) in
        ground (arith, live, name, old, ne)
  ];
}

-- A manager without players, of which none is alive, and then any starts of players that are not
-- alive and resets of players that are, as long as the ids stay below 2 ^ 32.
pub data Reachable : Players → Type 0 where
  created :
      {w : Players} → w.player_map ≡ [] → ((p : ℕ) → (w.player p).is_alive ≡ false) → Reachable w
  starting :
      {w : Players} (p heartbeat : ℕ)
      → Reachable w
      → (w.player p).is_alive ≡ false
      → w.current_issue_id + 1 < 2 ^ 32
      → Reachable (start p heartbeat w)
  resetting :
      {w : Players} (p : ℕ)
      → Reachable w
      → (w.player p).is_alive ≡ true
      → Reachable (player_reset p w)

Reachable-Registered : {w : Players} → Reachable w → Registered w
Reachable-Registered (created {w} nobody dead) = record {
  map = ground (arith, nobody);
  alive = λ p on. absurd (ground (arith, dead p, on));
  found = λ id p e. absurd (ground (arith, nobody, e));
}
Reachable-Registered (starting p heartbeat r off few) =
    start-Registered p heartbeat _ (Reachable-Registered r) off few
Reachable-Registered (resetting p r on) = player_reset-Registered p _ (Reachable-Registered r) on

-- Whatever players have been started and reset, none started while it was alive or reset while it
-- was not, and with ids below 2 ^ 32: the map finds a player under an id just when the player is
-- alive and has that id.
pub found-Reachable :
    {w : Players} (id p : ℕ)
    → Reachable w
    → (find id w.player_map ≡ some p)
      ↔ (((w.player p).is_alive ≡ true) × ((w.player p).player_id ≡ id))
found-Reachable {w} id p r =
    let g : Registered w = Reachable-Registered r in
    (
      (λ e. let (on, name, _) = g.found id p e in (on, name)),
      λ q. ap (λ k. find k w.player_map) (sym q.1) ∙ g.alive p q.0,
    )
