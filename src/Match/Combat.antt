-- ===== src/Match/Combat.antt =====
-- internal/domain/matchdom/combat.go. A champion is a unit that the map of champions and the match point
-- to alike; units are told apart by their ids, as the pointers are in the source.
pub mod Framed
pub mod Fight
pub mod Deadlock
pub mod Capture
use rts_vibe_code.Prelude.{
  ℕ, zero, suc, ◌+◌, Bool, true, false, not, ◌&&◌, ◌||◌, Option, none, some, List, [], ◌∷◌, ◌++◌,
  leb, ltb, ◌==◌, if◌then◌else◌, u64, nat_key, length,
}
use rts_vibe_code.Prelude.Int.{ℤ, pos, ◌+ℤ◌, ◌-ℤ◌, ltb_ℤ, leb_ℤ}
use rts_vibe_code.GoMap.{GoMap, lookup, insert, delete}
use rts_vibe_code.Catalogue.Units.{unit_damage}
use rts_vibe_code.Diplomacy.{Slot, no_slot, Time}
use rts_vibe_code.Diplomacy.Queries.{coalition_id}
use rts_vibe_code.Match.{
  Match, GameUnit, Province, AppliedEvent, AppliedKind, combat_damage, unit_destroyed,
  province_captured, Extra, damaged, destroyed, captured_from, next_seq, values, slot_ids,
  is_moving, write_unit,
}

abbrev pub Champions : Type 0
Champions = GoMap Slot GameUnit

unfoldable pub is_stationary : ℕ → Time → GameUnit → Bool
is_stationary prov_id at u =
    u.origin == prov_id && (u.dest == prov_id && (not (is_moving u at) && ltb_ℤ (pos 0) u.hp))

unfoldable pub stationary_among : ℕ → Time → List GameUnit → List GameUnit
stationary_among prov_id at [] = []
stationary_among prov_id at (u ∷ rest) =
    let others = stationary_among prov_id at rest in
    if is_stationary prov_id at u then u ∷ others else others

unfoldable pub stationary_units_in : Match → ℕ → Time → List GameUnit
unfolding stationary_among
stationary_units_in m prov_id at = stationary_among prov_id at (values m.units)

-- The champion after a unit of its coalition has joined it.
unfoldable pooled : GameUnit → GameUnit → GameUnit
pooled champion u =
    let hp = champion.hp +ℤ u.hp in
    if ltb_ℤ hp (u.hp +ℤ u.hp)
    then record champion { hp = hp; owner_slot = u.owner_slot; unit_type = u.unit_type }
    else record champion { hp = hp }

-- The body of the loop of `collapseChampions`, once the coalition of `u` is looked up.
abbrev join_under : Slot → Option GameUnit → Match → Champions → GameUnit → Match × Champions
join_under coal none m champions u = (m, insert coal u champions)
join_under coal (some champion) m champions u =
    let grown = pooled champion u in
    (record m { units = delete u.id (write_unit m.units grown) }, insert coal grown champions)

pub join : List Slot → Match → Champions → GameUnit → Match × Champions
join all m champions u =
    let coal = coalition_id m.diplomacy u.owner_slot all in
    join_under coal (lookup coal champions) m champions u

join_all : List Slot → Match → Champions → List GameUnit → Match × Champions
join_all all m champions [] = (m, champions)
join_all all m champions (u ∷ rest) =
    let (m', champions') = join all m champions u in join_all all m' champions' rest

pub collapse_champions : Match → List GameUnit → Match × Champions
unfolding join_all
collapse_champions m stationary = join_all (slot_ids m) m [] stationary

-- The body of the loop of `pickExtreme`, for one champion.
abbrev better : Bool → Option GameUnit → GameUnit → Option GameUnit
better low none u = some u
better low (some pick) u =
    if (low && ltb_ℤ u.hp pick.hp) || (not low && ltb_ℤ pick.hp u.hp) then some u else some pick

pub pick_from : Bool → Option GameUnit → Champions → Option GameUnit
pick_from low pick [] = pick
pick_from low pick ((k, u) ∷ rest) = pick_from low (better low pick u) rest

pub pick_extreme : Champions → Bool → Option GameUnit
unfolding pick_from
pick_extreme champions low = pick_from low none champions

pub excluding : Champions → GameUnit → Champions
excluding [] skip = []
excluding ((k, u) ∷ rest) skip =
    let others = excluding rest skip in if u.id == skip.id then others else (k, u) ∷ others

-- A write through the pointer that a champion is.
pub write_champion : Champions → GameUnit → Champions
write_champion [] u = []
write_champion ((k, v) ∷ rest) u = (k, if v.id == u.id then u else v) ∷ write_champion rest u

-- The match, the champions and the events so far.
pub record Fighting : Type 0 where
  pub game : Match
  pub champions : Champions
  pub out : List AppliedEvent

abbrev damage_event : Match → GameUnit → ℕ → Time → AppliedEvent
damage_event m u prov_id at = record {
  kind = combat_damage;
  occur_at = at;
  seq = m.seq;
  unit_id = u.id;
  province = 0;
  slot = u.owner_slot;
  extra = damaged u.hp prov_id;
}

abbrev destroyed_event : Match → GameUnit → ℕ → Time → AppliedEvent
destroyed_event m u prov_id at = record {
  kind = unit_destroyed;
  occur_at = at;
  seq = m.seq;
  unit_id = u.id;
  province = 0;
  slot = u.owner_slot;
  extra = destroyed prov_id;
}

-- The unit after a blow, and the rest of the loop's body after the choice of the two.
pub struck : GameUnit → GameUnit → GameUnit
struck attacker weakest = record weakest {
  hp = weakest.hp -ℤ pos (unit_damage attacker.unit_type weakest.unit_type);
}

pub blow : ℕ → Time → Fighting → GameUnit → GameUnit → Fighting
unfolding struck
blow prov_id at f attacker weakest =
    let u = struck attacker weakest in
    let m = next_seq (record f.game { units = write_unit f.game.units u }) in
    let champions = write_champion f.champions u in
    let out = f.out ++ damage_event m u prov_id at ∷ [] in
    if leb_ℤ u.hp (pos 0)
    then (let m' = next_seq (record m { units = delete u.id m.units }) in
        record {
          game = m';
          champions = delete u.owner_slot champions;
          out = out ++ destroyed_event m' u prov_id at ∷ [];
        })
    else record { game = m; champions = champions; out = out }

abbrev two_of : Option GameUnit → Option GameUnit → Option (GameUnit × GameUnit)
two_of (some a) (some w) = some (a, w)
two_of _ _ = none

-- The attacker and the weakest champion of a turn. With two champions or more there are both; a nil
-- pointer, `none`, would be a fault of the program.
pub duel : Champions → Option (GameUnit × GameUnit)
duel champions = elim (pick_extreme champions true) [
  | none ↦ none
  | some weakest ↦ two_of (pick_extreme (excluding champions weakest) false) (some weakest)
]

-- The loop of `fightUntilOneStands`, with fuel for its turns; `none` when the fuel runs out.
pub fight : ℕ → ℕ → Time → Fighting → Option Fighting
unfolding blow
fight zero prov_id at f = if ltb 1 (length f.champions) then none else some f
fight (suc fuel) prov_id at f =
    let turn : Option Fighting = elim (duel f.champions) [
      | none ↦ none
      | some (attacker, weakest) ↦ fight fuel prov_id at (blow prov_id at f attacker weakest)
    ] in
    if ltb 1 (length f.champions) then turn else some f

-- The last champion of the loop over the map.
abbrev last_champion : Option GameUnit → Champions → Option GameUnit
last_champion w [] = w
last_champion w ((k, u) ∷ rest) = last_champion (some u) rest

pub capture : Match → Province → GameUnit → Time → Match × List AppliedEvent
capture m prov winner at =
    let all = slot_ids m in
    let m' = next_seq (record m {
      provinces = insert prov.id (record prov { owner = winner.owner_slot }) m.provinces;
    }) in
    let e : AppliedEvent = record {
      kind = province_captured;
      occur_at = at;
      seq = m'.seq;
      unit_id = 0;
      province = prov.id;
      slot = winner.owner_slot;
      extra = captured_from prov.owner;
    } in
    if not (prov.owner == no_slot)
      && coalition_id m.diplomacy prov.owner all == coalition_id m.diplomacy winner.owner_slot all
    then (m, [])
    else (m', e ∷ [])

unfoldable pub capture_if_owner_changed :
    Match → Province → Champions → Time → Match × List AppliedEvent
unfolding capture
capture_if_owner_changed m prov champions at = elim (last_champion none champions) [
  | none ↦ (m, [])
  | some winner ↦ capture m prov winner at
]

-- With fuel for the turns of the fight.
pub resolve_province : ℕ → Match → Province → Time → Option (Match × List AppliedEvent)
resolve_province fuel m prov at = elim (stationary_units_in m prov.id at) [
  | [] ↦ some (m, [])
  | u ∷ rest ↦
      let (m1, champions) = collapse_champions m (u ∷ rest) in
      elim (fight fuel prov.id at (record { game = m1; champions = champions; out = [] })) [
        | none ↦ none
        | some f ↦
            let (m2, captured) = capture_if_owner_changed f.game prov f.champions at in
            some (m2, f.out ++ captured)
      ]
]
