-- ===== src/Visibility.antt =====
-- internal/domain/visibility/visibility.go: what a slot perceives of a match. A set of ids is the list of its
-- members, and the cache of contributors on the match is written by the questions that are asked.
pub mod Grid
pub mod Wire
pub mod Batch
pub mod Cache
pub mod Privacy
pub mod Sight
pub mod Framed
use rts_vibe_code.Prelude.{
  ℕ, Bool, true, false, ◌&&◌, Option, none, some, List, [], ◌∷◌, ◌++◌, ◌==◌, if◌then◌else◌,
  contains, nat_key, not,
}
use rts_vibe_code.GoMap.{GoMap, lookup, insert}
use rts_vibe_code.Float64.{F64, Float64}
use rts_vibe_code.Economy.{unit_view_radius, owned_province_view_radius}
use rts_vibe_code.Diplomacy.{Slot, Time, Registry}
use rts_vibe_code.Diplomacy.Queries.{coalition, sees_through}
use rts_vibe_code.StaticMap.{Map, add_once, neighbors}
use rts_vibe_code.Match.{Match, GameUnit, Province, values, slot_ids}
use rts_vibe_code.Match.Position.{position_at}
use rts_vibe_code.Visibility.Grid.{VisionCircle, Point, new_spatial_index, within}

-- The loop of `computeViewerContributors` over the other slots.
unfoldable pub sharing_from : Registry → Slot → List Slot → List Slot → List Slot
sharing_from r slot [] out = out
sharing_from r slot (other ∷ rest) out =
    sharing_from r slot rest
      (if contains other out then out else if sees_through r slot other then other ∷ out else out)

unfoldable pub compute_viewer_contributors : Match → Slot → List Slot
unfolding sharing_from
compute_viewer_contributors m slot =
    sharing_from m.diplomacy slot (slot_ids m) (coalition m.diplomacy slot (slot_ids m))

-- The cache that holds for the registry as it is: the one of the match if it is up to date, or a new one.
abbrev pub if_current : Bool → Option (GoMap Slot (List Slot)) → GoMap Slot (List Slot)
if_current true (some cache) = cache
if_current _ _ = []

abbrev pub fresh_cache : Match → GoMap Slot (List Slot)
fresh_cache m = if_current (m.vis_contributor_version == m.diplomacy.version) m.vis_contributors

-- The answer of the cache, or a computation that it keeps.
abbrev pub answer : Match → Slot → GoMap Slot (List Slot) → Option (List Slot) → Match × List Slot
answer m slot cache (some known) = (
  record m { vis_contributors = some cache; vis_contributor_version = m.diplomacy.version },
  known,
)
answer m slot cache none =
    let out = compute_viewer_contributors m slot in
    (
      record m {
        vis_contributors = some (insert slot out cache);
        vis_contributor_version = m.diplomacy.version;
      },
      out,
    )

unfoldable pub viewer_contributors : Match → Slot → Match × List Slot
viewer_contributors m slot = answer m slot (fresh_cache m) (lookup slot (fresh_cache m))

unfoldable pub add_all : List ℕ → List ℕ → List ℕ
add_all [] seen = seen
add_all (a ∷ rest) seen = add_all rest (add_once a seen)

-- The provinces of contributors, and their neighbours.
unfoldable pub owned_provinces : Map → List Slot → List Province → List ℕ → List ℕ
unfolding add_all
owned_provinces map contributors [] seen = seen
owned_provinces map contributors (p ∷ rest) seen = owned_provinces map contributors rest (
    if contains p.owner contributors
    then add_all (neighbors map p.id) (add_once p.id seen)
    else seen)

unfoldable pub owned_units : List Slot → List GameUnit → List ℕ → List ℕ
owned_units contributors [] seen = seen
owned_units contributors (u ∷ rest) seen =
    owned_units contributors rest
      (if contains u.owner_slot contributors then add_once u.id seen else seen)

module _ (fl : Float64) where
  open fl use {of_ℕ, times}

  abbrev circle : F64 × F64 → ℕ → VisionCircle
  circle (x, y) radius = record { x = x; y = y; r2 = times (of_ℕ radius) (of_ℕ radius) }

  unfoldable pub province_circles : List Slot → List Province → List VisionCircle
  province_circles contributors [] = []
  province_circles contributors (p ∷ rest) =
      let others = province_circles contributors rest in
      if contains p.owner contributors
      then circle (p.x, p.y) owned_province_view_radius ∷ others
      else others

  unfoldable pub unit_circles : List Slot → List GameUnit → Time → List VisionCircle
  unit_circles contributors [] at = []
  unit_circles contributors (u ∷ rest) at =
      let others = unit_circles contributors rest at in
      if contains u.owner_slot contributors
      then circle (position_at fl u at) (unit_view_radius u.unit_type) ∷ others
      else others

  -- The positions of what is not visible yet.
  unfoldable pub province_points : List ℕ → List Province → List Point
  province_points seen [] = []
  province_points seen (p ∷ rest) =
      let others = province_points seen rest in
      if contains p.id seen then others else (p.x, p.y) ∷ others

  unfoldable pub unit_points : List ℕ → List GameUnit → Time → List Point
  unit_points seen [] at = []
  unit_points seen (u ∷ rest) at =
      let others = unit_points seen rest at in
      if contains u.id seen then others else position_at fl u at ∷ others

  -- The two loops that add what lies in a circle.
  unfoldable pub lit_provinces : (Point → Bool) → List Province → List ℕ → List ℕ
  lit_provinces lit [] seen = seen
  lit_provinces lit (p ∷ rest) seen =
      lit_provinces lit rest
        (if contains p.id seen then seen else if lit (p.x, p.y) then p.id ∷ seen else seen)

  unfoldable pub lit_units : (Point → Bool) → List GameUnit → Time → List ℕ → List ℕ
  lit_units lit [] at seen = seen
  lit_units lit (u ∷ rest) at seen =
      lit_units lit rest at (
        if contains u.id seen
        then seen
        else if lit (position_at fl u at)
        then u.id ∷ seen
        else seen)

  -- The circles of all contributors.
  unfoldable pub circles_of : Match → List Slot → Time → List VisionCircle
  unfolding province_circles unit_circles
  circles_of m contributors at =
      province_circles contributors (values m.provinces)
      ++ unit_circles contributors (values m.units) at

  -- `For` behind the contributors: the ids of the visible provinces and of the visible units.
  abbrev pub seen_by : Match → List Slot → Time → List VisionCircle → List ℕ × List ℕ
  seen_by m contributors at [] = (
    owned_provinces m.static_map contributors (values m.provinces) [],
    owned_units contributors (values m.units) [],
  )
  seen_by m contributors at (c ∷ circles) =
      let provinces = owned_provinces m.static_map contributors (values m.provinces) [] in
      let units = owned_units contributors (values m.units) [] in
      let points =
        province_points provinces (values m.provinces) ++ unit_points units (values m.units) at in
      let lit = within fl (new_spatial_index fl (c ∷ circles) points) (c ∷ circles) in
      (lit_provinces lit (values m.provinces) provinces, lit_units lit (values m.units) at units)

  unfoldable pub seen : Match → List Slot → Time → List ℕ × List ℕ
  unfolding owned_provinces owned_units province_points unit_points lit_provinces lit_units
  seen m contributors at = seen_by m contributors at (circles_of m contributors at)

  -- `For`: the match with its cache, and the two sets.
  unfoldable pub visible_for : Match → Slot → Time → Match × (List ℕ × List ℕ)
  unfolding seen
  visible_for m slot at =
      let (m', contributors) = viewer_contributors m slot in (m', seen m' contributors at)
