-- ===== src/Diplomacy/Offers.antt =====
-- Offers and acceptances of internal/domain/diplomacydom/transitions.go.
use rts_vibe_code.Prelude.{◌≡◌, ◌≢◌, refl, false, none, some, arith, ◌==◌, if◌then◌else◌}
use rts_vibe_code.Diplomacy.{
  Slot, no_slot, Time, Stance, peace, Pending, pending_none, PactKind, Treaty, pair_key, Registry,
  sorted_pair,
}
use rts_vibe_code.Diplomacy.Queries.{stance, treaty, recorded, stance_or_war, has_pact}
use rts_vibe_code.Diplomacy.Transitions.{
  upsert, written, treaty_or_new, propose, accept, is_cooling,
}
use rts_vibe_code.Diplomacy.Symmetry.{same_two, recorded-same_two, same_two_self}
use rts_vibe_code.Diplomacy.Effects.{recorded-upsert, stance-upsert, has_pact-upsert}

abbrev pub proposed : Registry → Slot → Slot → Pending → Time → Registry
proposed r a b kind now = upsert r a b (stance_or_war (recorded r a b)) kind a now no_slot

pub propose_done :
    (r : Registry) (a b : Slot) (kind : Pending) (now : Time) {r' : Registry}
    → propose r a b kind now ≡ (r', none)
    → (proposed r a b kind now ≡ r') × (a ≢ b) × (is_cooling (recorded r a b) now ≡ false)
unfolding propose
propose_done r a b kind now h = ground arith

stance-proposed :
    (r : Registry) (a b : Slot) (kind : Pending) (now : Time) (c d : Slot)
    → stance (proposed r a b kind now) c d ≡ stance r c d
unfolding stance
stance-proposed r a b kind now c d =
    rw (stance-upsert r a b (stance_or_war (recorded r a b)) kind a now no_slot c d)
      (ground (arith, recorded-same_two r a b c d))

-- The treaty that a write leaves between the two slots.
pub treaty-upsert :
    (r : Registry) (a b : Slot) (s : Stance) (p : Pending) (from : Slot) (now : Time) (by : Slot)
    → a ≢ b
    → treaty (upsert r a b s p from now by) a b
      ≡ some (written (treaty_or_new (sorted_pair a b) (recorded r a b)) s p from now by)
unfolding treaty
treaty-upsert r a b s p from now by h =
    rw (recorded-upsert r a b s p from now by a b) (rw (same_two_self a b) (ground arith))

-- An offer that is recorded changes no posture and no pact of any two slots; it stands between the two
-- slots as an offer of `a`, and starts their cooldown.
pub propose_effect :
    (r : Registry) (a b : Slot) (kind : Pending) (now : Time) {r' : Registry}
    → propose r a b kind now ≡ (r', none)
    → (c d : Slot) (k : PactKind)
    → (stance r' c d ≡ stance r c d)
      × (has_pact r' c d k ≡ has_pact r c d k)
      × ((t : Treaty) × (treaty r' a b ≡ some t)
          × (t.pending ≡ kind)
          × (t.pending_from ≡ a)
          × (t.changed_at ≡ now))
propose_effect r a b kind now {r'} h c d k =
    let (same, apart, _) = propose_done r a b kind now h in
    (
      rw (← same) (stance-proposed r a b kind now c d),
      rw (← same) (has_pact-upsert r a b _ kind a now no_slot c d k),
      (
        written (treaty_or_new (sorted_pair a b) (recorded r a b)) (stance_or_war (recorded r a b))
            kind a now no_slot,
        rw (← same) (treaty-upsert r a b (stance_or_war (recorded r a b)) kind a now no_slot apart),
        refl,
        refl,
        refl,
      ),
    )

abbrev pub accepted : Registry → Slot → Slot → Stance → Time → Registry
accepted r a b becomes now = upsert r a b becomes pending_none no_slot now a

pub accept_done :
    (r : Registry) (a b : Slot) (want : Pending) (becomes : Stance) (now : Time) {r' : Registry}
    → accept r a b want becomes now ≡ (r', none)
    → (accepted r a b becomes now ≡ r')
      × (a ≢ b)
      × ((t : Treaty) × (treaty r a b ≡ some t) × (t.pending ≡ want) × (t.pending_from ≡ b))
unfolding accept treaty
accept_done r a b want becomes now h = ground arith

-- An acceptance that succeeds answers an offer that the other slot made and that still stands. It
-- gives the two slots the agreed posture and takes the offer away; the posture of any other two slots
-- and every pact stay.
pub accept_effect :
    (r : Registry) (a b : Slot) (want : Pending) (becomes : Stance) (now : Time) {r' : Registry}
    → accept r a b want becomes now ≡ (r', none)
    → (c d : Slot) (k : PactKind)
    → ((t : Treaty) × (treaty r a b ≡ some t) × (t.pending ≡ want) × (t.pending_from ≡ b))
      × (stance r' c d
          ≡ (if c == d then peace else if same_two a b c d then becomes else stance r c d))
      × (has_pact r' c d k ≡ has_pact r c d k)
      × ((t : Treaty) × (treaty r' a b ≡ some t) × (t.pending ≡ pending_none))
accept_effect r a b want becomes now {r'} h c d k =
    let (same, apart, offer) = accept_done r a b want becomes now h in
    (
      offer,
      rw (← same) (stance-upsert r a b becomes pending_none no_slot now a c d),
      rw (← same) (has_pact-upsert r a b becomes pending_none no_slot now a c d k),
      (
        written (treaty_or_new (sorted_pair a b) (recorded r a b)) becomes pending_none no_slot now
            a,
        rw (← same) (treaty-upsert r a b becomes pending_none no_slot now a apart),
        refl,
      ),
    )
