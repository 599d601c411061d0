-- ===== src/Diplomacy/Symmetry.antt =====
-- The registry and the order of its two slots.
use rts_vibe_code.Prelude.{◌≡◌, ap, Bool, true, ◌&&◌, ◌||◌, some, arith, ◌==◌}
use rts_vibe_code.GoMap.{lookup}
use rts_vibe_code.Diplomacy.{Slot, same_pair, Treaty, pair_key, Registry, sorted_pair}
use rts_vibe_code.Diplomacy.Queries.{recorded, stance, treaty}

sorted_pair_comm : (a b : Slot) → sorted_pair a b ≡ sorted_pair b a
unfolding sorted_pair
sorted_pair_comm a b = ground arith

-- Whether the two pairs are the same two slots.
abbrev pub same_two : Slot → Slot → Slot → Slot → Bool
same_two a b c d = a == c && b == d || a == d && b == c

pub same_pair-sorted_pair :
    (a b c d : Slot) → same_pair (sorted_pair a b) (sorted_pair c d) ≡ same_two a b c d
unfolding sorted_pair
same_pair-sorted_pair a b c d = ground arith

pub recorded_comm : (r : Registry) (a b : Slot) → recorded r a b ≡ recorded r b a
unfolding recorded
recorded_comm r a b = ap (λ k. lookup k r.treaties) (sorted_pair_comm a b)

-- The posture between two slots is the same seen from either side.
pub stance_comm : (r : Registry) (a b : Slot) → stance r a b ≡ stance r b a
unfolding stance
stance_comm r a b = rw (recorded_comm r a b) (ground arith)

pub recorded-same_two :
    (r : Registry) (a b c d : Slot) → same_two a b c d ≡ true → recorded r c d ≡ recorded r a b
unfolding recorded sorted_pair
recorded-same_two r a b c d h = ap (λ k. lookup k r.treaties) same
  where
    same : sorted_pair c d ≡ sorted_pair a b
    same = ground arith

pub same_two_self : (a b : Slot) → same_two a b a b ≡ true
same_two_self a b = ground arith

pub recorded_of_treaty :
    (r : Registry) (a b : Slot) {t : Treaty} → treaty r a b ≡ some t → recorded r a b ≡ some t
unfolding treaty
recorded_of_treaty r a b h = ground arith
