-- ===== src/StaticMap.antt =====
-- pkg/shared/maps/maps.go: the static map of a match, and its questions. The ids are numbers in the
-- order of the texts. Reading the YAML files is not modelled.
use Prim.Native.String.{String}
use rts_vibe_code.Prelude.{
  ◌≡◌, arith, ℕ, Bool, false, ◌&&◌, ◌||◌, Option, none, some, List, [], ◌∷◌, leb, ◌==◌,
  if◌then◌else◌, contains,
}
use rts_vibe_code.Prelude.Int.{ℤ}
use rts_vibe_code.Float64.{F64}

pub record Province : Type 0 where
  pub id : ℕ
  pub x : F64
  pub y : F64
  pub home_slot : ℕ

-- Between two provinces.
pub record Edge : Type 0 where
  pub source : ℕ
  pub target : ℕ

pub record Slot : Type 0 where
  pub id : ℕ
  pub color : String
  pub capital : ℕ

pub record StartingUnit : Type 0 where
  pub slot : ℕ
  pub unit_type : String
  pub province : ℕ
  pub hp : ℤ

pub record Map : Type 0 where
  pub id : ℕ
  pub provinces : List Province
  pub edges : List Edge
  pub slots : List Slot
  pub starting_units : List StartingUnit

find_province : ℕ → List Province → Option Province
find_province id [] = none
find_province id (p ∷ rest) = if p.id == id then some p else find_province id rest

unfoldable pub province : Map → ℕ → Option Province
unfolding find_province
province m id = find_province id m.provinces

abbrev joins : Edge → ℕ → ℕ → Bool
joins e a b = e.source == a && e.target == b || e.source == b && e.target == a

abbrev any_joins : List Edge → ℕ → ℕ → Bool
any_joins [] a b = false
any_joins (e ∷ rest) a b = joins e a b || any_joins rest a b

unfoldable pub has_edge : Map → ℕ → ℕ → Bool
has_edge m a b = any_joins m.edges a b

-- `sort.Strings`
unfoldable pub insert_sorted : ℕ → List ℕ → List ℕ
insert_sorted a [] = a ∷ []
insert_sorted a (x ∷ xs) = if leb a x then a ∷ x ∷ xs else x ∷ insert_sorted a xs

unfoldable pub sort : List ℕ → List ℕ
unfolding insert_sorted
sort [] = []
sort (x ∷ xs) = insert_sorted x (sort xs)

-- One turn of the loop of `Neighbors`; `seen` is a set.
abbrev pub add_once : ℕ → List ℕ → List ℕ
add_once a seen = if contains a seen then seen else a ∷ seen

seen_from : ℕ → List Edge → List ℕ → List ℕ
seen_from id [] seen = seen
seen_from id (e ∷ rest) seen = seen_from id rest (
    if e.source == id
    then add_once e.target seen
    else if e.target == id
    then add_once e.source seen
    else seen)

unfoldable pub neighbors : Map → ℕ → List ℕ
unfolding seen_from sort
neighbors m id = sort (seen_from id m.edges [])

find_province-id :
    (id : ℕ) (ps : List Province) (p : Province) → find_province id ps ≡ some p → p.id ≡ id
unfolding find_province
find_province-id id [] p h = absurd (cc)
find_province-id id (q ∷ rest) p h = ground (arith, h, find_province-id id rest p)

-- A province that is found under an id has this id.
pub province-id : (m : Map) (id : ℕ) (p : Province) → province m id ≡ some p → p.id ≡ id
unfolding province
province-id m id p h = find_province-id id m.provinces p h
