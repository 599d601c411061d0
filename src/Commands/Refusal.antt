-- ===== src/Commands/Refusal.antt =====
-- What a refused command leaves behind: `apply` and `Dispatch` of internal/domain/cmddom.
use rts_vibe_code.Prelude.{
  ℕ, ◌≡◌, ◌≢◌, refl, ap, Bool, true, false, Option, none, some, ◌==◌, if◌then◌else◌, arith, nat_key,
}
use rts_vibe_code.Catalogue.Units
use rts_vibe_code.Catalogue.Buildings
use rts_vibe_code.Diplomacy.{Slot, Registry}
use rts_vibe_code.Diplomacy.Transitions.{Err}
use rts_vibe_code.Diplomacy.History.{
  Action, step, declares_war, offers_peace, offers_alliance, accepts_peace, accepts_alliance,
  grants, revokes, step_error_unchanged,
}
use rts_vibe_code.Diplomacy.{share_map, right_of_way}
use rts_vibe_code.Match.{
  Match, Province, AppliedKind, Extra, Status, active, ended, between, offered_between,
  allied_between, pact_between, slot_ids,
}
use rts_vibe_code.Diplomacy.Queries.{coalition_id}
use rts_vibe_code.Commands.{Env, Command, CmdErr, Reply, rejected, unauthorized, match_inactive}
use rts_vibe_code.Commands.Production.{recruit_kind, apply_recruit, construct_kind, apply_construct}
use rts_vibe_code.Commands.Treaty.{
  Resolved, target, failed, with_target, after_call, apply_declare_war, apply_propose_peace,
  apply_propose_alliance, apply_accept_peace, apply_accept_alliance, apply_share_map,
  apply_revoke_share_map, apply_right_of_way_grant, apply_right_of_way_revoke,
}
use rts_vibe_code.Commands.Dispatch
use rts_vibe_code.Commands.Dispatch.{
  with_handler, by_status, Handler, handler_for, apply, with_issuer, dispatch_active, dispatch,
  moves,
}

-- An outcome that reports an error only with the match as it was.
abbrev Refuses : Match → Match × Reply → Type 0
Refuses m outcome = (e : CmdErr) → outcome.1.error ≡ some e → outcome.0 ≡ m

recruit_kind-Refuses :
    (m : Match) (cmd : Command) (prov : Province) (kind : Units.Kind) (fresh : ℕ)
    → Refuses m (recruit_kind m cmd prov kind fresh)
unfolding recruit_kind
recruit_kind-Refuses m cmd prov kind fresh e h = ground arith

apply_recruit-Refuses :
    (m : Match) (cmd : Command) (fresh : ℕ) → Refuses m (apply_recruit m cmd fresh)
unfolding apply_recruit
apply_recruit-Refuses m cmd fresh e h = ground (arith, recruit_kind-Refuses m cmd)

construct_kind-Refuses :
    (m : Match) (cmd : Command) (prov : Province) (kind : Buildings.Kind) (fresh : ℕ)
    → Refuses m (construct_kind m cmd prov kind fresh)
unfolding construct_kind
construct_kind-Refuses m cmd prov kind fresh e h = ground arith

apply_construct-Refuses :
    (m : Match) (cmd : Command) (fresh : ℕ) → Refuses m (apply_construct m cmd fresh)
unfolding apply_construct
apply_construct-Refuses m cmd fresh e h = ground (arith, construct_kind-Refuses m cmd)

after_call-Refuses :
    (m : Match) (cmd : Command) (kind : AppliedKind) (x : Registry → Extra)
    (out : Registry × Option Err)
    → ((e : Err) → out.1 ≡ some e → out.0 ≡ m.diplomacy)
    → Refuses m (after_call m cmd kind x out)
after_call-Refuses m cmd kind x (r, none) same e h = ground arith
after_call-Refuses m cmd kind x (r, some err) same e h =
    ap (λ d. record m { diplomacy = d }) (same err refl)

with_target-Refuses :
    (m : Match) (to : Resolved) (go : Slot → Match × Reply)
    → ((t : Slot) → Refuses m (go t))
    → Refuses m (with_target m to go)
with_target-Refuses m (failed code e) go r = λ e h. refl
with_target-Refuses m (target t) go r = r t

-- A diplomatic handler: the target, a call on the registry, and what follows it.
call-Refuses :
    (m : Match) (cmd : Command) (to : Resolved) (kind : AppliedKind) (x : Slot → Registry → Extra)
    (act : Slot → Action)
    → Refuses m (with_target m to λ t. after_call m cmd kind (x t) (step m.diplomacy (act t)))
call-Refuses m cmd to kind x act = with_target-Refuses m to _ λ t.
    after_call-Refuses m cmd kind (x t) (step m.diplomacy (act t))
      λ e h. step_error_unchanged m.diplomacy (act t) h

module _ (env : Env) (m : Match) (cmd : Command) where
  abbrev by : Slot
  by = cmd.issuer_slot

  apply-Refuses : (h : Handler) (fresh : ℕ) → h ≢ moves → Refuses m (apply env h m cmd fresh)
  unfolding apply apply_declare_war apply_propose_peace apply_propose_alliance apply_accept_peace
      apply_accept_alliance apply_share_map apply_revoke_share_map apply_right_of_way_grant
      apply_right_of_way_revoke step
  apply-Refuses moves fresh apart = absurd (apart refl)
  apply-Refuses Dispatch.recruits fresh apart = apply_recruit-Refuses m cmd fresh
  apply-Refuses Dispatch.constructs fresh apart = apply_construct-Refuses m cmd fresh
  apply-Refuses Dispatch.declares_war fresh apart =
      call-Refuses m cmd _ _ (λ t r. between by t) λ t. declares_war by t m.game_now
  apply-Refuses Dispatch.proposes_peace fresh apart =
      call-Refuses m cmd _ _ (λ t r. offered_between by t "peace") λ t. offers_peace by t m.game_now
  apply-Refuses Dispatch.proposes_alliance fresh apart =
      call-Refuses m cmd _ _ (λ t r. offered_between by t "alliance")
        λ t. offers_alliance by t m.game_now
  apply-Refuses Dispatch.accepts_peace fresh apart =
      call-Refuses m cmd _ _ (λ t r. between by t) λ t. accepts_peace by t m.game_now
  apply-Refuses Dispatch.accepts_alliance fresh apart =
      call-Refuses m cmd _ _ (λ t r. allied_between by t (coalition_id r by (slot_ids m)))
        λ t. accepts_alliance by t m.game_now
  apply-Refuses Dispatch.shares_map fresh apart =
      call-Refuses m cmd _ _ (λ t r. pact_between by t "share_map")
        λ t. grants by t share_map m.game_now
  apply-Refuses Dispatch.revokes_share_map fresh apart =
      call-Refuses m cmd _ _ (λ t r. pact_between by t "share_map") λ t. revokes by t share_map
  apply-Refuses Dispatch.grants_right_of_way fresh apart =
      call-Refuses m cmd _ _ (λ t r. pact_between by t "right_of_way")
        λ t. grants by t right_of_way m.game_now
  apply-Refuses Dispatch.revokes_right_of_way fresh apart =
      call-Refuses m cmd _ _ (λ t r. pact_between by t "right_of_way")
        λ t. revokes by t right_of_way

kind-with_issuer : (m : Match) (cmd : Command) → (with_issuer m cmd).kind ≡ cmd.kind
unfolding with_issuer
kind-with_issuer m cmd = ground arith

with_handler-Refuses :
    (env : Env) (m : Match) (cmd : Command) (fresh : ℕ) (h : Option Handler)
    → h ≢ some moves
    → Refuses m (with_handler env m cmd fresh h)
with_handler-Refuses env m cmd fresh none apart = λ e h. refl
with_handler-Refuses env m cmd fresh (some h) apart =
    apply-Refuses env m cmd h fresh λ same. apart (ap some same)

Refuses-if :
    (m : Match) (b : Bool) (x y : Match × Reply)
    → Refuses m x
    → Refuses m y
    → Refuses m (if b then x else y)
Refuses-if m true x y rx ry = rx
Refuses-if m false x y rx ry = ry

dispatch_active-Refuses :
    (env : Env) (m : Match) (cmd : Command) (fresh : ℕ)
    → handler_for cmd.kind ≢ some moves
    → Refuses m (dispatch_active env m cmd fresh)
unfolding dispatch_active
dispatch_active-Refuses env m cmd fresh apart =
    Refuses-if m (cmd.issuer_slot == 0) (m, rejected "no_slot" unauthorized)
      (with_handler env m cmd fresh (handler_for cmd.kind)) (λ e h. refl)
      (with_handler-Refuses env m cmd fresh (handler_for cmd.kind) apart)

by_status-Refuses :
    (m : Match) (s : Status) (x y : Match × Reply)
    → Refuses m x
    → Refuses m y
    → Refuses m (by_status s x y)
by_status-Refuses m active x y rx ry = rx
by_status-Refuses m ended x y rx ry = ry

-- A command that is refused leaves the whole match as it was, whatever it asks for but a move.
pub dispatch_refused :
    (env : Env) (m : Match) (cmd : Command) (fresh : ℕ) (e : CmdErr)
    → handler_for cmd.kind ≢ some moves
    → (dispatch env m cmd fresh).1.error ≡ some e
    → (dispatch env m cmd fresh).0 ≡ m
unfolding dispatch
dispatch_refused env m cmd fresh e apart =
    by_status-Refuses m m.status (dispatch_active env m (with_issuer m cmd) fresh)
      (m, rejected "match_inactive" match_inactive)
      (dispatch_active-Refuses env m (with_issuer m cmd) fresh (rw (kind-with_issuer m cmd) apart))
      (λ e h. refl) e
