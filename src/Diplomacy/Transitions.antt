-- ===== src/Diplomacy/Transitions.antt =====
-- internal/domain/diplomacydom/transitions.go: the operations that change the registry. Each returns
-- the registry after the call and its error, if any.
use rts_vibe_code.Prelude.{
  ℕ, ◌+◌, Bool, false, not, ◌&&◌, ◌||◌, Option, none, some, ltb, ◌==◌, if◌then◌else◌, u64,
}
use rts_vibe_code.GoMap.{lookup, insert, delete, delete_where}
use rts_vibe_code.Diplomacy.{
  Slot, no_slot, Time, Stance, war, peace, alliance, Pending, pending_none, pending_peace,
  pending_alliance, PactKind, same_stance, same_pending, Treaty, PairKey, PactKey, pair_key,
  pact_key, Registry, sorted_pair,
}
use rts_vibe_code.Diplomacy.Queries.{stance, treaty, recorded, stance_or_war}

-- time.Hour
abbrev pub cooldown_between_changes : ℕ
cooldown_between_changes = 3600000000000

pub data Err : Type 0 where
  self_treaty cooldown no_pending_offer already_at_stance pact_already_given pact_missing : Err

unfoldable pub bump_version : Registry → Registry
bump_version r = record r { version = u64 (r.version + 1) }

abbrev pub treaty_or_new : PairKey → Option Treaty → Treaty
treaty_or_new k (some t) = t
treaty_or_new k none = record {
  slot_a = k.a;
  slot_b = k.b;
  stance = war;
  pending = pending_none;
  pending_from = no_slot;
  changed_at = 0;
  last_change_from = no_slot;
}

abbrev pub written : Treaty → Stance → Pending → Slot → Time → Slot → Treaty
written t becomes pending pending_from now change_from = record t {
  stance = becomes;
  pending = pending;
  pending_from = pending_from;
  changed_at = now;
  last_change_from = if change_from == no_slot then t.last_change_from else change_from;
}

unfoldable pub upsert : Registry → Slot → Slot → Stance → Pending → Slot → Time → Slot → Registry
unfolding bump_version
upsert r a b becomes pending pending_from now change_from =
    let k = sorted_pair a b in
    let t = treaty_or_new k (lookup k r.treaties) in
    bump_version (record r {
      treaties = insert k (written t becomes pending pending_from now change_from) r.treaties;
    })

abbrev pub is_between : Slot → Slot → PactKey → Bool
is_between a b k = k.granter == a && k.grantee == b || k.granter == b && k.grantee == a

unfoldable pub revoke_all_between : Registry → Slot → Slot → Registry
unfolding bump_version
revoke_all_between r a b =
    let (kept, changed) = delete_where (is_between a b) r.pacts in
    if changed then bump_version (record r { pacts = kept }) else record r { pacts = kept }

-- `now.Sub(t.ChangedAt) < CooldownBetweenChanges`, where there is a treaty.
abbrev pub is_cooling : Option Treaty → Time → Bool
is_cooling none now = false
is_cooling (some t) now = ltb now (t.changed_at + cooldown_between_changes)

unfoldable pub declare_war : Registry → Slot → Slot → Time → Registry × Option Err
declare_war r issuer target now =
    if issuer == target
    then (r, some self_treaty)
    else if same_stance (stance r issuer target) war
    then (r, some already_at_stance)
    else if is_cooling (treaty r issuer target) now
    then (r, some cooldown)
    else (
      bump_version (
          revoke_all_between (upsert r issuer target war pending_none no_slot now issuer) issuer
            target),
      none,
    )

abbrev requested_stance : Pending → Stance
requested_stance pending_peace = peace
requested_stance pending_alliance = alliance
requested_stance pending_none = war

abbrev has_stance : Option Treaty → Stance → Bool
has_stance none s = false
has_stance (some t) s = same_stance t.stance s

unfoldable pub propose : Registry → Slot → Slot → Pending → Time → Registry × Option Err
propose r issuer target kind now =
    let t = recorded r issuer target in
    if issuer == target
    then (r, some self_treaty)
    else if has_stance t (requested_stance kind)
    then (r, some already_at_stance)
    else if is_cooling t now
    then (r, some cooldown)
    else (upsert r issuer target (stance_or_war t) kind issuer now no_slot, none)

unfoldable pub propose_peace : Registry → Slot → Slot → Time → Registry × Option Err
propose_peace r issuer target now = propose r issuer target pending_peace now

unfoldable pub propose_alliance : Registry → Slot → Slot → Time → Registry × Option Err
propose_alliance r issuer target now = propose r issuer target pending_alliance now

-- The negation of the guard of `accept`.
abbrev is_offered : Option Treaty → Slot → Slot → Pending → Bool
is_offered none accepter other want = false
is_offered (some t) accepter other want = not (
    not (same_pending t.pending want)
    || (t.pending_from == accepter || not (t.pending_from == other)))

unfoldable pub accept : Registry → Slot → Slot → Pending → Stance → Time → Registry × Option Err
accept r accepter other want becomes now =
    if is_offered (treaty r accepter other) accepter other want
    then (upsert r accepter other becomes pending_none no_slot now accepter, none)
    else (r, some no_pending_offer)

unfoldable pub accept_peace : Registry → Slot → Slot → Time → Registry × Option Err
accept_peace r accepter other now = accept r accepter other pending_peace peace now

unfoldable pub accept_alliance : Registry → Slot → Slot → Time → Registry × Option Err
accept_alliance r accepter other now = accept r accepter other pending_alliance alliance now

unfoldable pub grant_pact : Registry → Slot → Slot → PactKind → Time → Registry × Option Err
unfolding bump_version
grant_pact r granter grantee kind now =
    let k : PactKey = record { granter = granter; grantee = grantee; kind = kind } in
    if granter == grantee then (r, some self_treaty) else elim (lookup k r.pacts) [
      | some p ↦ (r, some pact_already_given)
      | none ↦ (
        bump_version (record r {
          pacts =
              insert k
                (record { granter = granter; grantee = grantee; kind = kind; granted_at = now })
                r.pacts;
        }),
        none,
      )
    ]

unfoldable pub revoke_pact : Registry → Slot → Slot → PactKind → Registry × Option Err
unfolding bump_version
revoke_pact r granter grantee kind =
    let k : PactKey = record { granter = granter; grantee = grantee; kind = kind } in
    if granter == grantee then (r, some self_treaty) else elim (lookup k r.pacts) [
      | none ↦ (r, some pact_missing)
      | some p ↦ (bump_version (record r { pacts = delete k r.pacts }), none)
    ]
