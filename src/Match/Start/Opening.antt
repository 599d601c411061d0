-- ===== src/Match/Start/Opening.antt =====
-- The match that `New` of internal/domain/matchdom/match.go gives.
use rts_vibe_code.Prelude.{
  ℕ, suc, ◌≡◌, Bool, true, false, ◌&&◌, Option, none, some, List, [], ◌∷◌, contains, not, nat_key,
}
use rts_vibe_code.GoMap.{GoMap, lookup}
use rts_vibe_code.Float64.{Float64}
use rts_vibe_code.Economy.{Resources, starting_resources}
use rts_vibe_code.Diplomacy.{Slot, Time}
use rts_vibe_code.Diplomacy.Queries
use rts_vibe_code.StaticMap
use rts_vibe_code.Timeline.{Timeline}
use rts_vibe_code.Heap
use rts_vibe_code.Match.{Match, Province, Player, GameUnit}
use rts_vibe_code.Match.Start.{hp_or_default, user_of}

abbrev pub is_found : Option StaticMap.Province → Bool
is_found none = false
is_found (some p) = true

-- Whether the province of every starting unit is on the map.
abbrev pub all_on_map : StaticMap.Map → List StaticMap.StartingUnit → Bool
all_on_map map [] = true
all_on_map map (su ∷ rest) = is_found (StaticMap.province map su.province) && all_on_map map rest

-- A unit that has not moved since: it stands on a province of the map, without a path, under version 1.
pub record Standing (map : StaticMap.Map) (t : Time) (u : GameUnit) : Type 0 where
  pub prov : StaticMap.Province
  pub on_map : StaticMap.province map u.origin ≡ some prov
  pub dest : u.dest ≡ u.origin
  pub place : (u.origin_x ≡ prov.x) × (u.origin_y ≡ prov.y)
  pub path : u.path ≡ []
  pub version : u.version ≡ 1
  pub since : (u.started_at ≡ t) × (u.arrives_at ≡ t)

abbrev pub AllStanding : StaticMap.Map → Time → GoMap ℕ GameUnit → Type 0
AllStanding map t units = (id : ℕ) (u : GameUnit) → lookup id units ≡ some u → Standing map t u

-- A unit as the map has it among the starting units.
pub record IsFrom (su : StaticMap.StartingUnit) (u : GameUnit) : Type 0 where
  pub owner : u.owner_slot ≡ su.slot
  pub type : u.unit_type ≡ su.unit_type
  pub place : u.origin ≡ su.province
  pub hp : u.hp ≡ hp_or_default su.hp

-- The starting units are there, under the ids from the n-th on.
abbrev pub Deployed : (ℕ → ℕ) → ℕ → List StaticMap.StartingUnit → GoMap ℕ GameUnit → Type 0
Deployed unit_ids n [] units = Unit
Deployed unit_ids n (su ∷ rest) units =
    ((u : GameUnit) × (lookup (unit_ids n) units ≡ some u) × IsFrom su u)
    × Deployed unit_ids (suc n) rest units

-- A map in which no two slots have the same capital.
abbrev pub capitals : List StaticMap.Slot → List ℕ
capitals [] = []
capitals (s ∷ rest) = s.capital ∷ capitals rest

abbrev pub distinct : List ℕ → Bool
distinct [] = true
distinct (a ∷ rest) = not (contains a rest) && distinct rest

-- The capital of each slot, if it is a province, belongs to the slot, as its capital.
abbrev pub Crowned : List StaticMap.Slot → GoMap ℕ Province → Type 0
Crowned [] provinces = Unit
Crowned (s ∷ rest) provinces =
    ((p : Province) → lookup s.capital provinces ≡ some p → (p.owner ≡ s.id) × (p.capital ≡ true))
    × Crowned rest provinces

abbrev AllRich : GoMap Slot Resources → Type 0
AllRich banks =
    (slot : Slot) (bank : Resources) → lookup slot banks ≡ some bank → bank ≡ starting_resources

-- The loop over the slots writes banks, players and provinces only.
record Settled (m m' : Match) : Type 0 where
  status : m'.status ≡ m.status
  timeline : m'.timeline ≡ m.timeline
  diplomacy : m'.diplomacy ≡ m.diplomacy
  units : m'.units ≡ m.units
  started_at : m'.started_at ≡ m.started_at
  rich : AllRich m.resources → AllRich m'.resources

-- A slot of the match has a player, the user assigned to it, who is alive, and a bank of starting resources.
pub record Seated (assignments : GoMap Slot ℕ) (players : GoMap Slot Player)
    (banks : GoMap Slot Resources) (slot : Slot) : Type 0 where
  pub player : Player
  pub there : lookup slot players ≡ some player
  pub its : (player.slot ≡ slot) × (player.alive ≡ true)
  pub user : player.user_id ≡ user_of (lookup slot assignments)
  pub bank : lookup slot banks ≡ some starting_resources

-- A province of the map, among those of the match.
abbrev pub IsHeld : GoMap ℕ Province → ℕ → Type 0
IsHeld provinces id = (p : Province) × (lookup id provinces ≡ some p) × (p.id ≡ id)

abbrev pub AllSeated :
    GoMap Slot ℕ → GoMap Slot Player → GoMap Slot Resources → List StaticMap.Slot → Type 0
AllSeated assignments players banks [] = Unit
AllSeated assignments players banks (s ∷ rest) =
    Seated assignments players banks s.id × AllSeated assignments players banks rest

abbrev pub AllHeld : GoMap ℕ Province → List StaticMap.Province → Type 0
AllHeld provinces [] = Unit
AllHeld provinces (p ∷ rest) = IsHeld provinces p.id × AllHeld provinces rest
