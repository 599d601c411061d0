-- ===== src/Diplomacy/Coalition/Leader.antt =====
-- `CoalitionID` of internal/domain/diplomacydom/registry.go.
use rts_vibe_code.Prelude.{
  ◌≤◌, ◌≡◌, true, List, [], ◌∷◌, arith, ltb, if◌then◌else◌, contains, ==_refl,
}
use rts_vibe_code.Diplomacy.{Slot, Registry}
use rts_vibe_code.Diplomacy.Queries.{coalition, coalition_id, least}
use rts_vibe_code.Diplomacy.Symmetry.{stance_comm}
use rts_vibe_code.Diplomacy.Coalition.{Linked, self, ally}
use rts_vibe_code.Diplomacy.Coalition.Reach.{contains-coalition}

least-le : (leader : Slot) (xs : List Slot) → least leader xs ≤ leader
unfolding least
least-le leader [] = omega arith
least-le leader (s ∷ rest) = ground (arith, least-le (if ltb s leader then s else leader) rest)

least-le_mem :
    (leader : Slot) (xs : List Slot) (x : Slot) → contains x xs ≡ true → least leader xs ≤ x
unfolding least
least-le_mem leader [] x h = absurd (cc)
least-le_mem leader (s ∷ rest) x h =
    let next = if ltb s leader then s else leader in
    ground (arith, least-le next rest, least-le_mem next rest x)

contains-least : (leader : Slot) (xs : List Slot) → contains (least leader xs) (leader ∷ xs) ≡ true
unfolding least
contains-least leader [] = ground (arith, ==_refl leader)
contains-least leader (s ∷ rest) =
    ground (arith, contains-least (if ltb s leader then s else leader) rest)

module _ (r : Registry) (all : List Slot) where
  Linked-trans : {a b c : Slot} → Linked r all a b → Linked r all b c → Linked r all a c
  Linked-trans l self = l
  Linked-trans l (ally m ab mb) = ally (Linked-trans l m) ab mb

  Linked-mem : {a b : Slot} → contains a all ≡ true → Linked r all a b → contains b all ≡ true
  Linked-mem there self = there
  Linked-mem there (ally l ab mb) = mb

  Linked-symm : {a b : Slot} → contains a all ≡ true → Linked r all a b → Linked r all b a
  Linked-symm there self = self
  Linked-symm there (ally {a = x} {b = y} l xy my) =
      Linked-trans (ally self (rw (stance_comm r y x) xy) (Linked-mem there l))
        (Linked-symm there l)

leader_in :
    (r : Registry) (slot : Slot) (all : List Slot)
    → contains (coalition_id r slot all) (coalition r slot all) ≡ true
unfolding coalition_id
leader_in r slot all = ground (arith, contains-least slot (coalition r slot all), here)
  where
    here : contains slot (coalition r slot all) ≡ true
    here = (contains-coalition r slot all slot).1 self

-- The leader of a coalition belongs to it, and no member comes before it.
pub coalition_id_least :
    (r : Registry) (slot : Slot) (all : List Slot) (x : Slot)
    → contains x (coalition r slot all) ≡ true
    → (contains (coalition_id r slot all) (coalition r slot all) ≡ true)
      × (coalition_id r slot all ≤ x)
unfolding coalition_id
coalition_id_least r slot all x h =
    (leader_in r slot all, least-le_mem slot (coalition r slot all) x h)

-- Every member of the coalition of a slot of the match finds the same leader.
pub coalition_id_same :
    (r : Registry) (a b : Slot) (all : List Slot)
    → contains a all ≡ true
    → contains b (coalition r a all) ≡ true
    → coalition_id r b all ≡ coalition_id r a all
coalition_id_same r a b all there h =
    let ma = leader_in r a all in
    let mb = leader_in r b all in
    let ab = (contains-coalition r a all b).0 h in
    let ba = Linked-symm r all there ab in
    let into_a =
      (contains-coalition r a all _).1
        (Linked-trans r all ab ((contains-coalition r b all _).0 mb)) in
    let into_b =
      (contains-coalition r b all _).1
        (Linked-trans r all ba ((contains-coalition r a all _).0 ma)) in
    omega (arith, (coalition_id_least r a all _ into_a).1, (coalition_id_least r b all _ into_b).1)
