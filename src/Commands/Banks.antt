-- ===== src/Commands/Banks.antt =====
-- The banks of the players over `Dispatch` of internal/domain/cmddom.
use rts_vibe_code.Prelude.{
  ℕ, ◌≡◌, ◌≢◌, refl, Bool, true, false, not, Option, none, some, ◌==◌, if◌then◌else◌, arith,
  nat_key, inl, inr,
}
use rts_vibe_code.GoMap.{lookup, lookup-insert}
use rts_vibe_code.Economy.{Resources, pay}
use rts_vibe_code.Catalogue.Units
use rts_vibe_code.Catalogue.Buildings
use rts_vibe_code.Diplomacy.{Slot}
use rts_vibe_code.Match.{Match, Province, Status, active, ended}
use rts_vibe_code.Commands.{
  Env, Command, Reply, extra, rejected, invalid_province, unauthorized, match_inactive,
  unknown_command,
}
use rts_vibe_code.Commands.Production.{
  wanted_type, recruit_order, build_order, recruit_in, build_in, apply_recruit, apply_construct,
}
use rts_vibe_code.Commands.Dispatch
use rts_vibe_code.Commands.Dispatch.{
  with_handler, by_status, Handler, handler_for, apply, with_issuer, dispatch_active, dispatch,
}
use rts_vibe_code.Commands.Untouched.{apply-resources}
use rts_vibe_code.Commands.Solvency.{
  NonNegative, IsSolvent, Pays, Pays-IsSolvent, cost-NonNegative, recruit_order-Pays,
  build_order-Pays,
}

-- The banks are as they were, or the payer has paid some cost that its bank covers.
abbrev Spends : Match → Slot → Match × Reply → Type 0
Spends m payer outcome = (cost : Resources) × NonNegative cost × Pays m payer cost outcome

Spends-same :
    (m : Match) (payer : Slot) (outcome : Match × Reply)
    → outcome.0.resources ≡ m.resources
    → Spends m payer outcome
Spends-same m payer outcome same =
    (Units.cost Units.infantry, cost-NonNegative Units.infantry, inl same)

Spends-if :
    (m : Match) (payer : Slot) (b : Bool) (x y : Match × Reply)
    → x.0.resources ≡ m.resources
    → Spends m payer y
    → Spends m payer (if b then x else y)
Spends-if m payer true x y same s = Spends-same m payer x same
Spends-if m payer false x y same s = s

recruit_in-Spends :
    (m : Match) (cmd : Command) (fresh : ℕ) (p : Option Province)
    → Spends m cmd.issuer_slot (recruit_in m cmd fresh p)
recruit_in-Spends m cmd fresh none =
    Spends-same m cmd.issuer_slot (m, rejected "bad_province" invalid_province) refl
recruit_in-Spends m cmd fresh (some prov) =
    let order = Units.by_id (wanted_type cmd (extra cmd "type")) in
    Spends-if m cmd.issuer_slot (not (prov.owner == cmd.issuer_slot))
      (m, rejected "unauthorized" unauthorized) (recruit_order m cmd prov fresh order) refl
      (recruit_order-Pays m cmd prov fresh order)

build_in-Spends :
    (m : Match) (cmd : Command) (fresh : ℕ) (p : Option Province)
    → Spends m cmd.issuer_slot (build_in m cmd fresh p)
build_in-Spends m cmd fresh none =
    Spends-same m cmd.issuer_slot (m, rejected "bad_province" invalid_province) refl
build_in-Spends m cmd fresh (some prov) =
    let order = Buildings.by_id (wanted_type cmd (extra cmd "type")) in
    Spends-if m cmd.issuer_slot (not (prov.owner == cmd.issuer_slot))
      (m, rejected "unauthorized" unauthorized) (build_order m cmd prov fresh order) refl
      (build_order-Pays m cmd prov fresh order)

apply-Spends :
    (env : Env) (m : Match) (cmd : Command) (h : Handler) (fresh : ℕ)
    → Spends m cmd.issuer_slot (apply env h m cmd fresh)
unfolding apply apply_recruit apply_construct
apply-Spends env m cmd Dispatch.recruits fresh =
    recruit_in-Spends m cmd fresh (lookup cmd.origin m.provinces)
apply-Spends env m cmd Dispatch.constructs fresh =
    build_in-Spends m cmd fresh (lookup cmd.origin m.provinces)
apply-Spends env m cmd h fresh =
    Spends-same m cmd.issuer_slot (apply env h m cmd fresh) (apply-resources env m cmd h fresh refl)

with_handler-Spends :
    (env : Env) (m : Match) (cmd : Command) (fresh : ℕ) (h : Option Handler)
    → Spends m cmd.issuer_slot (with_handler env m cmd fresh h)
with_handler-Spends env m cmd fresh none =
    Spends-same m cmd.issuer_slot (m, rejected "unknown_kind" unknown_command) refl
with_handler-Spends env m cmd fresh (some h) = apply-Spends env m cmd h fresh

dispatch_active-Spends :
    (env : Env) (m : Match) (cmd : Command) (fresh : ℕ)
    → Spends m cmd.issuer_slot (dispatch_active env m cmd fresh)
unfolding dispatch_active
dispatch_active-Spends env m cmd fresh =
    Spends-if m cmd.issuer_slot (cmd.issuer_slot == 0) (m, rejected "no_slot" unauthorized)
      (with_handler env m cmd fresh (handler_for cmd.kind)) refl
      (with_handler-Spends env m cmd fresh (handler_for cmd.kind))

by_status-Spends :
    (m : Match) (payer : Slot) (s : Status) (x y : Match × Reply)
    → Spends m payer x
    → y.0.resources ≡ m.resources
    → Spends m payer (by_status s x y)
by_status-Spends m payer active x y sx same = sx
by_status-Spends m payer ended x y sx same = Spends-same m payer y same

dispatch-Spends :
    (env : Env) (m : Match) (cmd : Command) (fresh : ℕ)
    → Spends m (with_issuer m cmd).issuer_slot (dispatch env m cmd fresh)
unfolding dispatch
dispatch-Spends env m cmd fresh =
    by_status-Spends m (with_issuer m cmd).issuer_slot m.status
      (dispatch_active env m (with_issuer m cmd) fresh)
      (m, rejected "match_inactive" match_inactive)
      (dispatch_active-Spends env m (with_issuer m cmd) fresh) refl

-- Where no player owes anything, none does after a command, whichever it is and whatever comes of it.
pub dispatch-IsSolvent :
    (env : Env) (m : Match) (cmd : Command) (fresh : ℕ)
    → IsSolvent m
    → IsSolvent (dispatch env m cmd fresh).0
dispatch-IsSolvent env m cmd fresh s =
    let (cost, n, paid) = dispatch-Spends env m cmd fresh in
    Pays-IsSolvent m (with_issuer m cmd).issuer_slot cost (dispatch env m cmd fresh) s n paid

-- A command leaves the bank of every slot but the issuer's as it was.
pub dispatch_other_banks :
    (env : Env) (m : Match) (cmd : Command) (fresh : ℕ) (slot : Slot)
    → slot ≢ (with_issuer m cmd).issuer_slot
    → lookup slot (dispatch env m cmd fresh).0.resources ≡ lookup slot m.resources
dispatch_other_banks env m cmd fresh slot apart =
    let (cost, n, paid) = dispatch-Spends env m cmd fresh in
    elim paid [
      | inl same ↦ rw same refl
      | inr (bank, can, e) ↦
          let other : ((with_issuer m cmd).issuer_slot == slot) ≡ false = ground (arith, apart) in
          rw (e, lookup-insert (with_issuer m cmd).issuer_slot slot (pay bank cost) m.resources)
            (rw other)
    ]
