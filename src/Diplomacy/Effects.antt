-- ===== src/Diplomacy/Effects.antt =====
-- What each operation changes in the answers of the registry, and what it leaves.
use rts_vibe_code.Prelude.{◌≡◌, ◌≢◌, refl, true, false, none, some, arith, ◌==◌, if◌then◌else◌}
use rts_vibe_code.GoMap.{lookup-insert, delete_where, lookup-delete_where}
use rts_vibe_code.Diplomacy.{
  Slot, no_slot, Time, Stance, war, peace, Pending, pending_none, PactKind, pair_key, pact_key,
  Registry, sorted_pair,
}
use rts_vibe_code.Diplomacy.Queries.{stance, treaty, recorded, has_pact}
use rts_vibe_code.Diplomacy.Transitions.{
  upsert, written, treaty_or_new, is_between, revoke_all_between, bump_version, declare_war,
  is_cooling,
}
use rts_vibe_code.Diplomacy.Symmetry.{same_two, same_pair-sorted_pair}

pub recorded-upsert :
    (r : Registry) (a b : Slot) (s : Stance) (p : Pending) (from : Slot) (now : Time) (by : Slot)
    (c d : Slot)
    → recorded (upsert r a b s p from now by) c d ≡ (
        if same_two a b c d
        then some (written (treaty_or_new (sorted_pair a b) (recorded r a b)) s p from now by)
        else recorded r c d)
unfolding recorded upsert
recorded-upsert r a b s p from now by c d =
    rw (lookup-insert (sorted_pair a b) (sorted_pair c d) _ r.treaties)
      (rw (same_pair-sorted_pair a b c d))

pub stance-upsert :
    (r : Registry) (a b : Slot) (s : Stance) (p : Pending) (from : Slot) (now : Time) (by : Slot)
    (c d : Slot)
    → stance (upsert r a b s p from now by) c d
      ≡ (if c == d then peace else if same_two a b c d then s else stance r c d)
unfolding stance
stance-upsert r a b s p from now by c d =
    rw (recorded-upsert r a b s p from now by c d) (ground arith)

pacts-revoke_all_between :
    (r : Registry) (a b : Slot)
    → (revoke_all_between r a b).pacts ≡ (delete_where (is_between a b) r.pacts).0
unfolding revoke_all_between
pacts-revoke_all_between r a b = ground arith

treaties-revoke_all_between :
    (r : Registry) (a b : Slot) → (revoke_all_between r a b).treaties ≡ r.treaties
unfolding revoke_all_between
treaties-revoke_all_between r a b = ground arith

stance-revoke_all_between :
    (r : Registry) (a b c d : Slot) → stance (revoke_all_between r a b) c d ≡ stance r c d
unfolding stance
stance-revoke_all_between r a b c d = rw (treaties-revoke_all_between r a b) refl

has_pact-revoke_all_between :
    (r : Registry) (a b c d : Slot) (k : PactKind)
    → has_pact (revoke_all_between r a b) c d k
      ≡ (if c == d then true else if same_two a b c d then false else has_pact r c d k)
unfolding has_pact
has_pact-revoke_all_between r a b c d k =
    rw
      (
        pacts-revoke_all_between r a b,
        lookup-delete_where (is_between a b) (record { granter = c; grantee = d; kind = k })
            r.pacts,
      )
      (ground arith)

stance-bump_version : (r : Registry) (c d : Slot) → stance (bump_version r) c d ≡ stance r c d
unfolding stance bump_version
stance-bump_version r c d = refl

has_pact-bump_version :
    (r : Registry) (c d : Slot) (k : PactKind) → has_pact (bump_version r) c d k ≡ has_pact r c d k
unfolding has_pact bump_version
has_pact-bump_version r c d k = refl

pub has_pact-upsert :
    (r : Registry) (a b : Slot) (s : Stance) (p : Pending) (from : Slot) (now : Time) (by : Slot)
    (c d : Slot) (k : PactKind)
    → has_pact (upsert r a b s p from now by) c d k ≡ has_pact r c d k
unfolding has_pact upsert
has_pact-upsert r a b s p from now by c d k = refl

ruleset effects = (
  stance-upsert, stance-revoke_all_between, stance-bump_version, has_pact-upsert,
  has_pact-revoke_all_between, has_pact-bump_version,
)

abbrev pub at_war : Registry → Slot → Slot → Time → Registry
at_war r a b now =
    bump_version (revoke_all_between (upsert r a b war pending_none no_slot now a) a b)

pub declare_war_done :
    (r : Registry) (a b : Slot) (now : Time) {r' : Registry}
    → declare_war r a b now ≡ (r', none)
    → (at_war r a b now ≡ r')
      × (a ≢ b)
      × (stance r a b ≢ war)
      × (is_cooling (treaty r a b) now ≡ false)
unfolding declare_war
declare_war_done r a b now h = ground arith

pub treaties-at_war :
    (r : Registry) (a b : Slot) (now : Time)
    → (at_war r a b now).treaties ≡ (upsert r a b war pending_none no_slot now a).treaties
unfolding bump_version
treaties-at_war r a b now = treaties-revoke_all_between _ a b

stance-at_war :
    (r : Registry) (a b : Slot) (now : Time) (c d : Slot)
    → stance (at_war r a b now) c d
      ≡ (if c == d then peace else if same_two a b c d then war else stance r c d)
stance-at_war r a b now c d = simp effects

has_pact-at_war :
    (r : Registry) (a b : Slot) (now : Time) (c d : Slot) (k : PactKind)
    → has_pact (at_war r a b now) c d k
      ≡ (if c == d then true else if same_two a b c d then false else has_pact r c d k)
has_pact-at_war r a b now c d k = simp effects

-- A declaration of war that succeeds puts the two slots at war and ends every pact between them; the
-- posture and the pacts of any other two slots stay. It succeeds only from another posture than war.
pub declare_war_effect :
    (r : Registry) (a b : Slot) (now : Time) {r' : Registry}
    → declare_war r a b now ≡ (r', none)
    → (c d : Slot) (k : PactKind)
    → (stance r a b ≢ war)
      × (stance r' c d ≡ (if c == d then peace else if same_two a b c d then war else stance r c d))
      × (has_pact r' c d k
          ≡ (if c == d then true else if same_two a b c d then false else has_pact r c d k))
declare_war_effect r a b now h c d k =
    let (same, _, hostile, _) = declare_war_done r a b now h in
    (
      hostile,
      rw (← same) (stance-at_war r a b now c d),
      rw (← same) (has_pact-at_war r a b now c d k),
    )
