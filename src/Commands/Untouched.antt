-- ===== src/Commands/Untouched.antt =====
-- The commands of internal/domain/cmddom that do not spend: moves and diplomacy.
use rts_vibe_code.Prelude.{
  ℕ, ◌≡◌, refl, ap, Bool, true, false, Option, none, some, List, arith, nat_key,
}
use rts_vibe_code.Diplomacy.{Slot, Registry}
use rts_vibe_code.Diplomacy.Transitions.{Err}
use rts_vibe_code.Match.{
  Match, GameUnit, Target, AppliedKind, Extra, war_declared, peace_proposed, alliance_proposed,
  peace_signed, alliance_signed, pact_granted, pact_revoked, between, offered_between,
  allied_between, pact_between, slot_ids,
}
use rts_vibe_code.Diplomacy.{share_map, right_of_way}
use rts_vibe_code.Diplomacy.Queries.{coalition_id}
use rts_vibe_code.Diplomacy.Transitions.{
  declare_war, propose_peace, propose_alliance, accept_peace, accept_alliance, grant_pact,
  revoke_pact,
}
use rts_vibe_code.Pathing.{Leg}
use rts_vibe_code.Match.Frame.{frame}
use rts_vibe_code.Movement.Framed.{set_unit_path-frame, start_next_waypoint-frame}
use rts_vibe_code.Commands.{Env, Command, Reply}
use rts_vibe_code.Commands.Move.{along_route, enqueue, redirect, move_unit, apply_move}
use rts_vibe_code.Commands.Treaty.{
  Resolved, target, failed, with_target, after_call, emit_diplomacy_event, resolve_target,
  apply_declare_war, apply_propose_peace, apply_propose_alliance, apply_accept_peace,
  apply_accept_alliance, apply_share_map, apply_revoke_share_map, apply_right_of_way_grant,
  apply_right_of_way_revoke,
}
use rts_vibe_code.Commands.Dispatch
use rts_vibe_code.Commands.Dispatch.{
  with_handler, by_status, Handler, handler_for, apply, with_issuer, dispatch_active, dispatch,
}

module _ (env : Env) (m : Match) (cmd : Command) where
  enqueue-frame : (u : GameUnit) (t : Target) → frame (enqueue env m u t).0 ≡ frame m
  unfolding enqueue
  enqueue-frame u t = grind (arith, start_next_waypoint-frame)

  along_route-frame :
      (u : GameUnit) (legs : Option (List Leg)) → frame (along_route env m cmd u legs).0 ≡ frame m
  along_route-frame u none = refl
  along_route-frame u (some legs) = grind (arith, set_unit_path-frame)

  move_unit-frame : (u : GameUnit) → frame (move_unit env m cmd u).0 ≡ frame m
  unfolding move_unit redirect
  move_unit-frame u = grind (arith, enqueue-frame, along_route-frame)

  apply_move-frame : frame (apply_move env m cmd).0 ≡ frame m
  unfolding apply_move
  apply_move-frame = grind (arith, move_unit-frame)

after_call-frame :
    (m : Match) (cmd : Command) (kind : AppliedKind) (x : Registry → Extra)
    (out : Registry × Option Err)
    → frame (after_call m cmd kind x out).0 ≡ frame m
unfolding emit_diplomacy_event
after_call-frame m cmd kind x (r, none) = refl
after_call-frame m cmd kind x (r, some e) = refl

with_target-frame :
    (m : Match) (to : Resolved) (go : Slot → Match × Reply)
    → ((t : Slot) → frame (go t).0 ≡ frame m)
    → frame (with_target m to go).0 ≡ frame m
with_target-frame m (failed code e) go same = refl
with_target-frame m (target t) go same = same t

-- A diplomatic handler: the target, a call on the registry, and what follows it.
call-frame :
    (m : Match) (cmd : Command) (to : Resolved) (kind : AppliedKind) (x : Slot → Registry → Extra)
    (out : Slot → Registry × Option Err)
    → frame (with_target m to λ t. after_call m cmd kind (x t) (out t)).0 ≡ frame m
call-frame m cmd to kind x out =
    with_target-frame m to _ λ t. after_call-frame m cmd kind (x t) (out t)

-- The handlers that spend from a bank.
abbrev is_production : Handler → Bool
is_production Dispatch.recruits = true
is_production Dispatch.constructs = true
is_production _ = false

pub apply-frame :
    (env : Env) (m : Match) (cmd : Command) (h : Handler) (fresh : ℕ)
    → is_production h ≡ false
    → frame (apply env h m cmd fresh).0 ≡ frame m
unfolding apply apply_declare_war apply_propose_peace apply_propose_alliance apply_accept_peace
    apply_accept_alliance apply_share_map apply_revoke_share_map apply_right_of_way_grant
    apply_right_of_way_revoke
apply-frame env m cmd Dispatch.moves fresh n = apply_move-frame env m cmd
apply-frame env m cmd Dispatch.recruits fresh n = ground (arith, n)
apply-frame env m cmd Dispatch.constructs fresh n = ground (arith, n)
apply-frame env m cmd Dispatch.declares_war fresh n =
    call-frame m cmd (resolve_target env m cmd) war_declared (λ t r. between cmd.issuer_slot t)
      λ t. declare_war m.diplomacy cmd.issuer_slot t m.game_now
apply-frame env m cmd Dispatch.proposes_peace fresh n =
    call-frame m cmd (resolve_target env m cmd) peace_proposed
      (λ t r. offered_between cmd.issuer_slot t "peace")
      λ t. propose_peace m.diplomacy cmd.issuer_slot t m.game_now
apply-frame env m cmd Dispatch.proposes_alliance fresh n =
    call-frame m cmd (resolve_target env m cmd) alliance_proposed
      (λ t r. offered_between cmd.issuer_slot t "alliance")
      λ t. propose_alliance m.diplomacy cmd.issuer_slot t m.game_now
apply-frame env m cmd Dispatch.accepts_peace fresh n =
    call-frame m cmd (resolve_target env m cmd) peace_signed (λ t r. between cmd.issuer_slot t)
      λ t. accept_peace m.diplomacy cmd.issuer_slot t m.game_now
apply-frame env m cmd Dispatch.accepts_alliance fresh n =
    call-frame m cmd (resolve_target env m cmd) alliance_signed
      (λ t r. allied_between cmd.issuer_slot t (coalition_id r cmd.issuer_slot (slot_ids m)))
      λ t. accept_alliance m.diplomacy cmd.issuer_slot t m.game_now
apply-frame env m cmd Dispatch.shares_map fresh n =
    call-frame m cmd (resolve_target env m cmd) pact_granted
      (λ t r. pact_between cmd.issuer_slot t "share_map")
      λ t. grant_pact m.diplomacy cmd.issuer_slot t share_map m.game_now
apply-frame env m cmd Dispatch.revokes_share_map fresh n =
    call-frame m cmd (resolve_target env m cmd) pact_revoked
      (λ t r. pact_between cmd.issuer_slot t "share_map")
      λ t. revoke_pact m.diplomacy cmd.issuer_slot t share_map
apply-frame env m cmd Dispatch.grants_right_of_way fresh n =
    call-frame m cmd (resolve_target env m cmd) pact_granted
      (λ t r. pact_between cmd.issuer_slot t "right_of_way")
      λ t. grant_pact m.diplomacy cmd.issuer_slot t right_of_way m.game_now
apply-frame env m cmd Dispatch.revokes_right_of_way fresh n =
    call-frame m cmd (resolve_target env m cmd) pact_revoked
      (λ t r. pact_between cmd.issuer_slot t "right_of_way")
      λ t. revoke_pact m.diplomacy cmd.issuer_slot t right_of_way

pub apply-resources :
    (env : Env) (m : Match) (cmd : Command) (h : Handler) (fresh : ℕ)
    → is_production h ≡ false
    → (apply env h m cmd fresh).0.resources ≡ m.resources
apply-resources env m cmd h fresh n = ap (λ f. f.banks) (apply-frame env m cmd h fresh n)
