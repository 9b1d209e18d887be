-- ===== src/Players/Buffs.antt =====
-- How long a buff lasts: `AddBuff` and then any number of calls of `DecayTickBuff`.
use gsp.Prelude.{
  ℕ, zero, suc, ◌+◌, ◌-◌, ◌*◌, ◌^◌, ◌<◌, ◌≡◌, refl, ap, ◌∙◌, ltb, if◌then◌else◌, Option, none, some,
  [], ◌∷◌, arith, dec_lt, ℕ_discrete,
}
use gsp.Players.{
  Map, Player, rank, find, insert, decay, time_left, expired, add_buff, decay_tick_buff,
}

-- The key stands before those of the map.
abbrev pub Above : ℕ → Map → Type 0
Above key [] = Unit
Above key ((k, v) ∷ m) = (rank key < rank k) × Above key m

-- Every key stands once, and they are in order.
abbrev pub IsMap : Map → Type 0
IsMap [] = Unit
IsMap ((k, v) ∷ m) = (k < 2 ^ 32) × Above k m × IsMap m

pub Above-trans : (j k : ℕ) (m : Map) → rank j < rank k → Above k m → Above j m
Above-trans j k [] lt a = tt
Above-trans j k ((i, v) ∷ m) lt a = (omega (arith, a.0), Above-trans j k m lt a.1)

pub find-Above : (key : ℕ) (m : Map) → Above key m → find key m ≡ none
find-Above key [] a = refl
find-Above key ((k, v) ∷ m) a = ground (arith, find-Above key m a.1)

Above-insert :
    (j key value : ℕ) (m : Map) → rank j < rank key → Above j m → Above j (insert key value m)
unfolding insert
Above-insert j key value [] lt a = (lt, tt)
Above-insert j key value ((k, v) ∷ m) lt a =
    ground (arith, Above-insert j key value m lt a.1, lt, a)

Above-decay : (j heart_beat : ℕ) (m : Map) → Above j m → Above j (decay heart_beat m)
unfolding decay
Above-decay j heart_beat [] a = tt
Above-decay j heart_beat ((k, v) ∷ m) a = ground (arith, Above-decay j heart_beat m a.1, a)

pub insert-IsMap : (key value : ℕ) (m : Map) → key < 2 ^ 32 → IsMap m → IsMap (insert key value m)
unfolding insert
insert-IsMap key value [] small d = (small, tt, tt)
insert-IsMap key value ((k, v) ∷ m) small d = elim (ℕ_discrete k key) [
  | yes e ↦ ground (arith, d)
  | no ne ↦ elim (dec_lt (rank key) (rank k)) [
    | yes lt ↦ ground (arith, d, Above-trans key k m lt d.1)
    | no ge ↦
        let gt : rank k < rank key = omega (arith, d.0) in
        ground (arith, d, Above-insert k key value m gt d.1, insert-IsMap key value m small d.2)
  ]
]

pub decay-IsMap : (heart_beat : ℕ) (m : Map) → IsMap m → IsMap (decay heart_beat m)
unfolding decay
decay-IsMap heart_beat [] d = tt
decay-IsMap heart_beat ((k, v) ∷ m) d =
    ground (arith, d, Above-decay k heart_beat m d.1, decay-IsMap heart_beat m d.2)

-- What the buff has left after a call, nothing when it has expired.
abbrev aged : ℕ → Option ℕ → Option ℕ
aged heart_beat none = none
aged heart_beat (some time) =
    if expired (time_left heart_beat time) then none else some (time_left heart_beat time)

find-decay :
    (key heart_beat : ℕ) (m : Map)
    → IsMap m
    → find key (decay heart_beat m) ≡ aged heart_beat (find key m)
unfolding decay
find-decay key heart_beat [] d = refl
find-decay key heart_beat ((k, v) ∷ m) d = elim (ℕ_discrete k key) [
  | yes e ↦ ground (arith, find-Above k (decay heart_beat m) (Above-decay k heart_beat m d.1))
  | no ne ↦ ground (arith, find-decay key heart_beat m d.2)
]

-- What a key has, and else the value that is given.
abbrev pub or_given : Option ℕ → ℕ → ℕ
or_given none value = value
or_given (some old) value = old

find-insert :
    (key value : ℕ) (m : Map)
    → IsMap m
    → find key (insert key value m) ≡ some (or_given (find key m) value)
unfolding insert
find-insert key value [] d = ground arith
find-insert key value ((k, v) ∷ m) d = elim (ℕ_discrete k key) [
  | yes e ↦ ground arith
  | no ne ↦ elim (dec_lt (rank key) (rank k)) [
    | yes lt ↦ ground (arith, find-Above key m (Above-trans key k m lt d.1))
    | no ge ↦ ground (arith, find-insert key value m d.2)
  ]
]

abbrev pub decays : ℕ → Player → Player
decays zero p = p
decays (suc n) p = decay_tick_buff (decays n p)

decays-heart_beat : (n : ℕ) (p : Player) → (decays n p).heart_beat ≡ p.heart_beat
unfolding decay_tick_buff
decays-heart_beat zero p = refl
decays-heart_beat (suc n) p = decays-heart_beat n p

decays-IsMap : (n : ℕ) (p : Player) → IsMap p.buff_list → IsMap (decays n p).buff_list
unfolding decay_tick_buff
decays-IsMap zero p d = d
decays-IsMap (suc n) p d =
    decay-IsMap (decays n p).heart_beat (decays n p).buff_list (decays-IsMap n p d)

-- What is left of `duration` after `n` heart beats.
abbrev pub remaining : ℕ → ℕ → ℕ → Option ℕ
remaining heart_beat n duration =
    if ltb (n * heart_beat) duration then some (duration - n * heart_beat) else none

aged-remaining :
    (heart_beat n duration : ℕ)
    → 0 < heart_beat
    → heart_beat < 2 ^ 31
    → duration < 2 ^ 31
    → aged heart_beat (remaining heart_beat n duration) ≡ remaining heart_beat (suc n) duration
aged-remaining heart_beat n duration pos small short =
    let next : suc n * heart_beat ≡ n * heart_beat + heart_beat = omega arith in
    ground (arith, next, pos, small, short)

find-decays :
    (key duration n : ℕ) (p : Player)
    → IsMap p.buff_list
    → 0 < p.heart_beat
    → p.heart_beat < 2 ^ 31
    → 0 < duration
    → duration < 2 ^ 31
    → find key p.buff_list ≡ some duration
    → find key (decays n p).buff_list ≡ remaining p.heart_beat n duration
unfolding decay_tick_buff
find-decays key duration zero p d pos small some_left short e = ground (arith, e)
find-decays key duration (suc n) p d pos small some_left short e =
    find-decay key (decays n p).heart_beat (decays n p).buff_list (decays-IsMap n p d)
    ∙ ap (λ h. aged h (find key (decays n p).buff_list)) (decays-heart_beat n p)
    ∙ ap (aged p.heart_beat) (find-decays key duration n p d pos small some_left short e)
    ∙ aged-remaining p.heart_beat n duration pos small short

-- For a player with a heart beat above 0 whose buffs are in a map, after `AddBuff` and any number
-- of calls of `DecayTickBuff` the buff has what these heart beats leave of its duration, and is
-- gone when they leave nothing. Its duration, above 0, is the one given, or what was left if the
-- player had it.
pub add_buff-decays :
    (buff_id duration n : ℕ) (p : Player)
    → IsMap p.buff_list
    → buff_id < 2 ^ 32
    → 0 < p.heart_beat
    → p.heart_beat < 2 ^ 31
    → 0 < or_given (find buff_id p.buff_list) duration
    → or_given (find buff_id p.buff_list) duration < 2 ^ 31
    → find buff_id (decays n (add_buff buff_id duration p)).buff_list
      ≡ remaining p.heart_beat n (or_given (find buff_id p.buff_list) duration)
unfolding add_buff
add_buff-decays buff_id duration n p d id pos small some_left short =
    find-decays buff_id (or_given (find buff_id p.buff_list) duration) n
      (add_buff buff_id duration p) (insert-IsMap buff_id duration p.buff_list id d) pos small
      some_left short (find-insert buff_id duration p.buff_list d)
