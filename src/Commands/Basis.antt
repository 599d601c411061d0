-- ===== src/Commands/Basis.antt =====
-- No command of internal/domain/cmddom changes what is set once in a match.
use rts_vibe_code.Prelude.{ℕ, ◌≡◌, refl, ap, Option, none, some, arith, nat_key}
use rts_vibe_code.GoMap.{lookup}
use rts_vibe_code.Catalogue.Units
use rts_vibe_code.Catalogue.Buildings
use rts_vibe_code.Economy.{Resources}
use rts_vibe_code.Match.{Match, Province, Status, active, ended}
use rts_vibe_code.Match.Frame.{basis}
use rts_vibe_code.Commands.{Env, Command, Reply}
use rts_vibe_code.Commands.Production.{
  recruit_paid, build_paid, recruit_kind, construct_kind, recruit_order, build_order, recruit_in,
  build_in, apply_recruit, apply_construct, queue_recruit, queue_build,
}
use rts_vibe_code.Commands.Untouched.{apply-frame}
use rts_vibe_code.Commands.Dispatch
use rts_vibe_code.Commands.Dispatch.{
  Handler, handler_for, apply, with_handler, by_status, with_issuer, dispatch_active, dispatch,
}

recruit_paid-basis :
    (m : Match) (cmd : Command) (prov : Province) (kind : Units.Kind) (fresh : ℕ)
    (bank : Option Resources)
    → basis (recruit_paid m cmd prov kind fresh bank).0 ≡ basis m
unfolding queue_recruit
recruit_paid-basis m cmd prov kind fresh none = refl
recruit_paid-basis m cmd prov kind fresh (some bank) = refl

build_paid-basis :
    (m : Match) (cmd : Command) (prov : Province) (kind : Buildings.Kind) (fresh : ℕ)
    (bank : Option Resources)
    → basis (build_paid m cmd prov kind fresh bank).0 ≡ basis m
unfolding queue_build
build_paid-basis m cmd prov kind fresh none = refl
build_paid-basis m cmd prov kind fresh (some bank) = refl

recruit_order-basis :
    (m : Match) (cmd : Command) (prov : Province) (fresh : ℕ) (kind : Option Units.Kind)
    → basis (recruit_order m cmd prov fresh kind).0 ≡ basis m
unfolding recruit_kind
recruit_order-basis m cmd prov fresh none = refl
recruit_order-basis m cmd prov fresh (some kind) =
    grind (arith, recruit_paid-basis m cmd prov kind fresh)

build_order-basis :
    (m : Match) (cmd : Command) (prov : Province) (fresh : ℕ) (kind : Option Buildings.Kind)
    → basis (build_order m cmd prov fresh kind).0 ≡ basis m
unfolding construct_kind
build_order-basis m cmd prov fresh none = refl
build_order-basis m cmd prov fresh (some kind) =
    grind (arith, build_paid-basis m cmd prov kind fresh)

recruit_in-basis :
    (m : Match) (cmd : Command) (fresh : ℕ) (prov : Option Province)
    → basis (recruit_in m cmd fresh prov).0 ≡ basis m
recruit_in-basis m cmd fresh none = refl
recruit_in-basis m cmd fresh (some prov) = grind (arith, recruit_order-basis m cmd prov fresh)

build_in-basis :
    (m : Match) (cmd : Command) (fresh : ℕ) (prov : Option Province)
    → basis (build_in m cmd fresh prov).0 ≡ basis m
build_in-basis m cmd fresh none = refl
build_in-basis m cmd fresh (some prov) = grind (arith, build_order-basis m cmd prov fresh)

apply-basis :
    (env : Env) (m : Match) (cmd : Command) (h : Handler) (fresh : ℕ)
    → basis (apply env h m cmd fresh).0 ≡ basis m
unfolding apply apply_recruit apply_construct
apply-basis env m cmd Dispatch.recruits fresh =
    recruit_in-basis m cmd fresh (lookup cmd.origin m.provinces)
apply-basis env m cmd Dispatch.constructs fresh =
    build_in-basis m cmd fresh (lookup cmd.origin m.provinces)
apply-basis env m cmd h fresh = ap (λ f. f.basis) (apply-frame env m cmd h fresh refl)

with_handler-basis :
    (env : Env) (m : Match) (cmd : Command) (fresh : ℕ) (h : Option Handler)
    → basis (with_handler env m cmd fresh h).0 ≡ basis m
with_handler-basis env m cmd fresh none = refl
with_handler-basis env m cmd fresh (some h) = apply-basis env m cmd h fresh

by_status-basis :
    (m : Match) (s : Status) (x : Match × Reply) (r : Reply)
    → basis x.0 ≡ basis m
    → basis (by_status s x (m, r)).0 ≡ basis m
by_status-basis m active x r same = same
by_status-basis m ended x r same = refl

dispatch_active-basis :
    (env : Env) (m : Match) (cmd : Command) (fresh : ℕ)
    → basis (dispatch_active env m cmd fresh).0 ≡ basis m
unfolding dispatch_active
dispatch_active-basis env m cmd fresh = grind (arith, with_handler-basis env m cmd fresh)

pub dispatch-basis :
    (env : Env) (m : Match) (cmd : Command) (fresh : ℕ)
    → basis (dispatch env m cmd fresh).0 ≡ basis m
unfolding dispatch
dispatch-basis env m cmd fresh =
    by_status-basis m m.status (dispatch_active env m (with_issuer m cmd) fresh) _
      (dispatch_active-basis env m (with_issuer m cmd) fresh)
