-- ===== src/Commands/Solvency.antt =====
-- The banks of the players under the commands of internal/domain/cmddom.
use rts_vibe_code.Prelude.{
  ℕ, ◌≡◌, refl, subst, Bool, true, false, Option, none, some, ◌==◌, if◌then◌else◌, arith, nat_key,
  Bool-cases, inl, inr, ◌⊎◌,
}
use rts_vibe_code.Prelude.Int.{neg_part, ◌-ℤ◌}
use rts_vibe_code.GoMap.{lookup, insert, lookup-insert}
use rts_vibe_code.Economy.{Resources, can_pay, pay}
use rts_vibe_code.Catalogue.Units
use rts_vibe_code.Catalogue.Buildings
use rts_vibe_code.Diplomacy.{Slot}
use rts_vibe_code.Match.{Match, has_building, Province}
use rts_vibe_code.Commands.{Command, Reply, rejected, factory_required, already_queued}
use rts_vibe_code.Commands.Production.{
  is_some, solvent, lacks_building, recruit_paid, build_paid, recruit_order, build_order,
  recruit_kind, queue_recruit, construct_kind, queue_build,
}

abbrev pub NonNegative : Resources → Type 0
NonNegative r = (neg_part r.manpower ≡ 0) × (neg_part r.food ≡ 0) × (neg_part r.iron ≡ 0)

pay-NonNegative : (r c : Resources) → can_pay r c ≡ true → NonNegative c → NonNegative (pay r c)
unfolding can_pay pay ◌-ℤ◌
pay-NonNegative r c h n = (ground arith, ground arith, ground arith)

-- No player owes anything.
abbrev pub IsSolvent : Match → Type 0
IsSolvent m =
    (slot : Slot) (bank : Resources) → lookup slot m.resources ≡ some bank → NonNegative bank

pub cost-NonNegative : (kind : Units.Kind) → NonNegative (Units.cost kind)
cost-NonNegative kind = (ground arith, ground arith, ground arith)

building-cost-NonNegative : (kind : Buildings.Kind) → NonNegative (Buildings.cost kind)
building-cost-NonNegative kind = (ground arith, ground arith, ground arith)

-- The banks after one of them has paid.
paid-NonNegative :
    (m : Match) (payer : Slot) (bank cost : Resources)
    → IsSolvent m
    → can_pay bank cost ≡ true
    → NonNegative cost
    → (slot : Slot) (b : Resources)
    → lookup slot (insert payer (pay bank cost) m.resources) ≡ some b
    → NonNegative b
paid-NonNegative m payer bank cost s paid n slot b =
    rw (lookup-insert payer slot (pay bank cost) m.resources) (elim (Bool-cases (payer == slot)) [
      | inl hit ↦ rw hit λ e. subst NonNegative (cc (e)) (pay-NonNegative bank cost paid n)
      | inr miss ↦ rw miss (s slot b)
    ])

can_pay-solvent :
    (bank : Option Resources) (cost b : Resources)
    → solvent bank cost ≡ some b
    → can_pay b cost ≡ true
can_pay-solvent none cost b h = ground arith
can_pay-solvent (some r) cost b h = elim (Bool-cases (can_pay r cost)) [
  | inl can ↦ subst (λ x. can_pay x cost ≡ true) (ground (arith, can, h)) can
  | inr cannot ↦ ground (arith, cannot, h)
]

-- The banks are as they were, or the issuer has paid the cost out of a bank that covers it.
abbrev pub Pays : Match → Slot → Resources → Match × Reply → Type 0
Pays m payer cost outcome =
    (outcome.0.resources ≡ m.resources)
    ⊎ ((bank : Resources) × (can_pay bank cost ≡ true)
        × (outcome.0.resources ≡ insert payer (pay bank cost) m.resources))

Pays-if :
    (m : Match) (payer : Slot) (cost : Resources) (b : Bool) (x y : Match × Reply)
    → x.0.resources ≡ m.resources
    → Pays m payer cost y
    → Pays m payer cost (if b then x else y)
Pays-if m payer cost true x y same p = inl same
Pays-if m payer cost false x y same p = p

recruit_paid-Pays :
    (m : Match) (cmd : Command) (prov : Province) (kind : Units.Kind) (fresh : ℕ)
    (bank : Option Resources)
    → ((b : Resources) → bank ≡ some b → can_pay b (Units.cost kind) ≡ true)
    → Pays m cmd.issuer_slot (Units.cost kind) (recruit_paid m cmd prov kind fresh bank)
unfolding queue_recruit
recruit_paid-Pays m cmd prov kind fresh none h = inl refl
recruit_paid-Pays m cmd prov kind fresh (some b) h = inr (b, h b refl, refl)

recruit_kind-Pays :
    (m : Match) (cmd : Command) (prov : Province) (kind : Units.Kind) (fresh : ℕ)
    → Pays m cmd.issuer_slot (Units.cost kind) (recruit_kind m cmd prov kind fresh)
unfolding recruit_kind
recruit_kind-Pays m cmd prov kind fresh =
    let bank = lookup cmd.issuer_slot m.resources in
    let paid =
      recruit_paid-Pays m cmd prov kind fresh (solvent bank (Units.cost kind))
        (can_pay-solvent bank (Units.cost kind)) in
    Pays-if m cmd.issuer_slot (Units.cost kind)
      (lacks_building m prov.id (Units.needs_building kind))
      (m, rejected "needs_factory" factory_required)
      (if is_some (lookup prov.id m.next_recruit)
        then (m, rejected "busy" already_queued)
        else recruit_paid m cmd prov kind fresh (solvent bank (Units.cost kind)))
      refl
      (Pays-if m cmd.issuer_slot (Units.cost kind) (is_some (lookup prov.id m.next_recruit))
        (m, rejected "busy" already_queued)
        (recruit_paid m cmd prov kind fresh (solvent bank (Units.cost kind))) refl paid)

pub recruit_order-Pays :
    (m : Match) (cmd : Command) (prov : Province) (fresh : ℕ) (kind : Option Units.Kind)
    → (cost : Resources) × NonNegative cost
      × Pays m cmd.issuer_slot cost (recruit_order m cmd prov fresh kind)
recruit_order-Pays m cmd prov fresh none =
    (Units.cost Units.infantry, cost-NonNegative Units.infantry, inl refl)
recruit_order-Pays m cmd prov fresh (some kind) =
    (Units.cost kind, cost-NonNegative kind, recruit_kind-Pays m cmd prov kind fresh)

build_paid-Pays :
    (m : Match) (cmd : Command) (prov : Province) (kind : Buildings.Kind) (fresh : ℕ)
    (bank : Option Resources)
    → ((b : Resources) → bank ≡ some b → can_pay b (Buildings.cost kind) ≡ true)
    → Pays m cmd.issuer_slot (Buildings.cost kind) (build_paid m cmd prov kind fresh bank)
unfolding queue_build
build_paid-Pays m cmd prov kind fresh none h = inl refl
build_paid-Pays m cmd prov kind fresh (some b) h = inr (b, h b refl, refl)

construct_kind-Pays :
    (m : Match) (cmd : Command) (prov : Province) (kind : Buildings.Kind) (fresh : ℕ)
    → Pays m cmd.issuer_slot (Buildings.cost kind) (construct_kind m cmd prov kind fresh)
unfolding construct_kind
construct_kind-Pays m cmd prov kind fresh =
    let bank = lookup cmd.issuer_slot m.resources in
    let paid =
      build_paid-Pays m cmd prov kind fresh (solvent bank (Buildings.cost kind))
        (can_pay-solvent bank (Buildings.cost kind)) in
    Pays-if m cmd.issuer_slot (Buildings.cost kind) (has_building m prov.id (Buildings.id kind))
      (m, rejected "already_built" already_queued)
      (if is_some (lookup prov.id m.next_build)
        then (m, rejected "busy" already_queued)
        else build_paid m cmd prov kind fresh (solvent bank (Buildings.cost kind)))
      refl
      (Pays-if m cmd.issuer_slot (Buildings.cost kind) (is_some (lookup prov.id m.next_build))
        (m, rejected "busy" already_queued)
        (build_paid m cmd prov kind fresh (solvent bank (Buildings.cost kind))) refl paid)

pub build_order-Pays :
    (m : Match) (cmd : Command) (prov : Province) (fresh : ℕ) (kind : Option Buildings.Kind)
    → (cost : Resources) × NonNegative cost
      × Pays m cmd.issuer_slot cost (build_order m cmd prov fresh kind)
build_order-Pays m cmd prov fresh none =
    (Buildings.cost Buildings.factory, building-cost-NonNegative Buildings.factory, inl refl)
build_order-Pays m cmd prov fresh (some kind) =
    (Buildings.cost kind, building-cost-NonNegative kind, construct_kind-Pays m cmd prov kind fresh)

-- The banks after a command that pays.
pub Pays-IsSolvent :
    (m : Match) (payer : Slot) (cost : Resources) (outcome : Match × Reply)
    → IsSolvent m
    → NonNegative cost
    → Pays m payer cost outcome
    → IsSolvent outcome.0
Pays-IsSolvent m payer cost outcome s n (inl same) = rw same s
Pays-IsSolvent m payer cost outcome s n (inr (bank, paid, e)) =
    rw e (paid-NonNegative m payer bank cost s paid n)
