-- ===== src/Commands/Treaty.antt =====
-- The diplomatic commands of internal/domain/cmddom: declare_war.go, propose_peace.go, accept_peace.go,
-- share_map.go, right_of_way.go and diplomacy_helpers.go.
use Prim.Native.String.{String}
use rts_vibe_code.Prelude.{Option, none, some, List, [], ◌∷◌, ◌==◌, if◌then◌else◌, nat_key}
use rts_vibe_code.GoMap.{lookup}
use rts_vibe_code.Diplomacy.{Slot, Registry, PactKind, share_map, right_of_way}
use rts_vibe_code.Diplomacy.Queries.{coalition_id}
use rts_vibe_code.Diplomacy.Transitions.{
  Err, self_treaty, cooldown, no_pending_offer, already_at_stance, pact_already_given, pact_missing,
  declare_war, propose_peace, propose_alliance, accept_peace, accept_alliance, grant_pact,
  revoke_pact,
}
use rts_vibe_code.Match.{
  Match, AppliedEvent, AppliedKind, Extra, war_declared, peace_proposed, alliance_proposed,
  peace_signed, alliance_signed, pact_granted, pact_revoked, between, offered_between,
  allied_between, pact_between, next_seq, slot_ids,
}
use rts_vibe_code.Commands.{
  Env, Command, extra, CmdErr, unknown_target, diplomacy_rejected, Reply, rejected, accepted,
}

pub data Resolved : Type 0 where
  target : Slot → Resolved
  failed : String → CmdErr → Resolved

abbrev check_target : Match → Command → Slot → Resolved
check_target m cmd t = elim (lookup t m.players) [
  | none ↦ failed "unknown_target" unknown_target
  | some p ↦ if t == cmd.issuer_slot then failed "self_target" unknown_target else target t
]

unfoldable pub resolve_target : Env → Match → Command → Resolved
resolve_target env m cmd = elim (extra cmd "target_slot") [
  | none ↦ failed "missing_target" unknown_target
  | some text ↦
      if env.id_of text == 0
      then failed "missing_target" unknown_target
      else check_target m cmd (env.id_of text)
]

-- Every error that the registry returns is one of the six.
unfoldable pub translate_diplomacy_err : Err → Reply
translate_diplomacy_err self_treaty = rejected "self_target" unknown_target
translate_diplomacy_err cooldown = rejected "cooldown" diplomacy_rejected
translate_diplomacy_err already_at_stance = rejected "already_at_stance" diplomacy_rejected
translate_diplomacy_err no_pending_offer = rejected "no_offer" diplomacy_rejected
translate_diplomacy_err pact_already_given = rejected "pact_already_given" diplomacy_rejected
translate_diplomacy_err pact_missing = rejected "pact_missing" diplomacy_rejected

unfoldable pub emit_diplomacy_event :
    Match → Command → AppliedKind → Extra → Match × List AppliedEvent
emit_diplomacy_event m cmd kind extra =
    let m' = next_seq m in
    (
      m',
      (record {
        kind = kind;
        occur_at = m.game_now;
        seq = m'.seq;
        unit_id = 0;
        province = 0;
        slot = cmd.issuer_slot;
        extra = extra;
      })
          ∷ [],
    )

-- The rest of a handler behind the call on the registry.
abbrev pub after_call :
    Match → Command → AppliedKind → (Registry → Extra) → Registry × Option Err → Match × Reply
after_call m cmd kind extra (r, some e) = (record m { diplomacy = r }, translate_diplomacy_err e)
after_call m cmd kind extra (r, none) =
    let (m', events) = emit_diplomacy_event (record m { diplomacy = r }) cmd kind (extra r) in
    (m', accepted events)

abbrev pub with_target : Match → Resolved → (Slot → Match × Reply) → Match × Reply
with_target m (failed code e) go = (m, rejected code e)
with_target m (target t) go = go t

module _ (env : Env) (m : Match) (cmd : Command) where
  abbrev issuer : Slot
  issuer = cmd.issuer_slot

  unfoldable pub apply_declare_war : Match × Reply
  apply_declare_war = with_target m (resolve_target env m cmd) λ t.
      after_call m cmd war_declared (λ r. between issuer t)
        (declare_war m.diplomacy issuer t m.game_now)

  unfoldable pub apply_propose_peace : Match × Reply
  apply_propose_peace = with_target m (resolve_target env m cmd) λ t.
      after_call m cmd peace_proposed (λ r. offered_between issuer t "peace")
        (propose_peace m.diplomacy issuer t m.game_now)

  unfoldable pub apply_propose_alliance : Match × Reply
  apply_propose_alliance = with_target m (resolve_target env m cmd) λ t.
      after_call m cmd alliance_proposed (λ r. offered_between issuer t "alliance")
        (propose_alliance m.diplomacy issuer t m.game_now)

  unfoldable pub apply_accept_peace : Match × Reply
  apply_accept_peace = with_target m (resolve_target env m cmd) λ t.
      after_call m cmd peace_signed (λ r. between issuer t)
        (accept_peace m.diplomacy issuer t m.game_now)

  unfoldable pub apply_accept_alliance : Match × Reply
  apply_accept_alliance = with_target m (resolve_target env m cmd) λ t.
      after_call m cmd alliance_signed
        (λ r. allied_between issuer t (coalition_id r issuer (slot_ids m)))
        (accept_alliance m.diplomacy issuer t m.game_now)

  abbrev granting : PactKind → String → Match × Reply
  granting kind name = with_target m (resolve_target env m cmd) λ t.
      after_call m cmd pact_granted (λ r. pact_between issuer t name)
        (grant_pact m.diplomacy issuer t kind m.game_now)

  abbrev revoking : PactKind → String → Match × Reply
  revoking kind name = with_target m (resolve_target env m cmd) λ t.
      after_call m cmd pact_revoked (λ r. pact_between issuer t name)
        (revoke_pact m.diplomacy issuer t kind)

  unfoldable pub apply_share_map : Match × Reply
  apply_share_map = granting share_map "share_map"

  unfoldable pub apply_revoke_share_map : Match × Reply
  apply_revoke_share_map = revoking share_map "share_map"

  unfoldable pub apply_right_of_way_grant : Match × Reply
  apply_right_of_way_grant = granting right_of_way "right_of_way"

  unfoldable pub apply_right_of_way_revoke : Match × Reply
  apply_right_of_way_revoke = revoking right_of_way "right_of_way"
