-- ===== src/Commands/Recruitment.antt =====
-- A recruit order that is accepted: `recruitHandler` of internal/domain/cmddom/recruit.go.
use rts_vibe_code.Prelude.{
  ℕ, ◌+◌, ◌≡◌, refl, Bool, true, false, Option, none, some, ◌==◌, arith, nat_key, inl, inr,
  Bool-cases, Option-cases, ==_refl, ==_iff, ◌∙◌, ap,
}
use rts_vibe_code.GoMap.{lookup, lookup-insert}
use rts_vibe_code.Heap.Array.{count, one}
use rts_vibe_code.Economy.{Resources, can_pay, pay}
use rts_vibe_code.Catalogue.Units
use rts_vibe_code.Timeline.{Event, recruit_complete}
use rts_vibe_code.Timeline.Order.{IsTimeline, push_lem}
use rts_vibe_code.Match.{Match, Province, RecruitOrder}
use rts_vibe_code.Commands.{Command, extra}
use rts_vibe_code.Commands.Production.{
  solvent, lacks_building, recruit_paid, recruit_kind, recruit_order, recruit_in, queue_recruit,
  apply_recruit, wanted_type,
}

-- A bank that can pay.
pub solvent-some :
    (o : Option Resources) (cost bank : Resources)
    → solvent o cost ≡ some bank
    → (o ≡ some bank) × (can_pay bank cost ≡ true)
solvent-some none cost bank h = absurd (cc)
solvent-some (some r) cost bank h = elim (Bool-cases (can_pay r cost)) [
  | inl can ↦ let same : r ≡ bank = ground (arith, h, can) in (ap some same, rw (← same) can)
  | inr cannot ↦ ground (arith, h, cannot)
]

module _ (m : Match) (cmd : Command) (fresh : ℕ) where
  -- What an accepted order has found, and the match that it leaves.
  record Accepts (prov : Province) (outcome : Match) : Type 0 where
    kind : Units.Kind
    bank : Resources
    wanted : Units.by_id (wanted_type cmd (extra cmd "type")) ≡ some kind
    equipped : lacks_building m prov.id (Units.needs_building kind) ≡ false
    idle : lookup prov.id m.next_recruit ≡ none
    funded : lookup cmd.issuer_slot m.resources ≡ some bank
    covered : can_pay bank (Units.cost kind) ≡ true
    queued : outcome ≡ queue_recruit m cmd prov kind bank fresh

  recruit_paid_done :
      (prov : Province) (kind : Units.Kind) (o : Option Resources)
      → (recruit_paid m cmd prov kind fresh o).1.error ≡ none
      → (bank : Resources) × (o ≡ some bank)
        × ((recruit_paid m cmd prov kind fresh o).0 ≡ queue_recruit m cmd prov kind bank fresh)
  recruit_paid_done prov kind none h = absurd (cc)
  recruit_paid_done prov kind (some bank) h = (bank, refl, refl)

  recruit_kind_done :
      (prov : Province) (kind : Units.Kind)
      → Units.by_id (wanted_type cmd (extra cmd "type")) ≡ some kind
      → (recruit_kind m cmd prov kind fresh).1.error ≡ none
      → Accepts prov (recruit_kind m cmd prov kind fresh).0
  unfolding recruit_kind
  recruit_kind_done prov kind named h =
      elim (Bool-cases (lacks_building m prov.id (Units.needs_building kind))) [
        | inl lacks ↦ ground (arith, h, lacks)
        | inr equipped ↦ elim (Option-cases (lookup prov.id m.next_recruit)) [
          | inr (order, busy) ↦ ground (arith, h, equipped, busy)
          | inl idle ↦
              let (bank, solvent, queued) =
                recruit_paid_done prov kind
                  (solvent (lookup cmd.issuer_slot m.resources) (Units.cost kind))
                  (rw (equipped, idle) at h) in
              let (funded, covered) =
                solvent-some (lookup cmd.issuer_slot m.resources) (Units.cost kind) bank solvent in
              record {
                kind = kind;
                bank = bank;
                wanted = named;
                equipped = equipped;
                idle = idle;
                funded = funded;
                covered = covered;
                queued = rw (equipped, idle) queued;
              }
        ]
      ]

  recruit_order_done :
      (prov : Province) (kind : Option Units.Kind)
      → Units.by_id (wanted_type cmd (extra cmd "type")) ≡ kind
      → (recruit_order m cmd prov fresh kind).1.error ≡ none
      → Accepts prov (recruit_order m cmd prov fresh kind).0
  recruit_order_done prov none named h = absurd (cc)
  recruit_order_done prov (some kind) named h = recruit_kind_done prov kind named h

  recruit_in_done :
      (p : Option Province)
      → (recruit_in m cmd fresh p).1.error ≡ none
      → (prov : Province) × (p ≡ some prov)
        × (prov.owner ≡ cmd.issuer_slot)
        × Accepts prov (recruit_in m cmd fresh p).0
  recruit_in_done none h = absurd (cc)
  recruit_in_done (some prov) h = elim (Bool-cases (prov.owner == cmd.issuer_slot)) [
    | inr foreign ↦ ground (arith, h, foreign)
    | inl own ↦
        let kind = Units.by_id (wanted_type cmd (extra cmd "type")) in
        (
          prov,
          refl,
          (==_iff prov.owner cmd.issuer_slot).0 own,
          rw own (recruit_order_done prov kind refl (rw own at h)),
        )
  ]

  -- A recruit order that is accepted, in a match whose timeline is a heap, is for the unit that the
  -- command names, in an own province that has the building the unit needs and no order under way. The
  -- bank of the issuer covered the price and has paid exactly that. An order of the issuer, for this unit
  -- in this province, stands there, and one event is scheduled, its completion when the unit's building
  -- time has passed; the timeline stays a heap.
  pub apply_recruit_effect :
      IsTimeline m.timeline
      → (apply_recruit m cmd fresh).1.error ≡ none
      → let m' = (apply_recruit m cmd fresh).0 in
        (prov : Province) × (kind : Units.Kind) × (bank : Resources) × (order : RecruitOrder)
        × (lookup cmd.origin m.provinces ≡ some prov)
        × (prov.owner ≡ cmd.issuer_slot)
        × (Units.by_id (wanted_type cmd (extra cmd "type")) ≡ some kind)
        × (lacks_building m prov.id (Units.needs_building kind) ≡ false)
        × (lookup prov.id m.next_recruit ≡ none)
        × (lookup cmd.issuer_slot m.resources ≡ some bank)
        × (can_pay bank (Units.cost kind) ≡ true)
        × (lookup cmd.issuer_slot m'.resources ≡ some (pay bank (Units.cost kind)))
        × (lookup prov.id m'.next_recruit ≡ some order)
        × ((order.id ≡ fresh)
            × (order.owner_slot ≡ cmd.issuer_slot)
            × (order.province ≡ prov.id)
            × (order.unit_type ≡ Units.id kind)
            × (order.issued_at ≡ m.game_now))
        × (order.completes_at ≡ m.game_now + Units.build_time kind)
        × IsTimeline m'.timeline
        × ((p : Event → Bool)
            → count p m'.timeline
              ≡ count p m.timeline
                + one p (record {
                  at = order.completes_at;
                  kind = recruit_complete;
                  unit_id = order.id;
                  other = 0;
                  version = 0;
                }))
  unfolding apply_recruit queue_recruit
  apply_recruit_effect heap h =
      let (prov, there, own, a) = recruit_in_done (lookup cmd.origin m.provinces) h in
      let paid = pay a.bank (Units.cost a.kind) in
      let order : RecruitOrder = record {
        id = fresh;
        owner_slot = cmd.issuer_slot;
        province = prov.id;
        unit_type = Units.id a.kind;
        issued_at = m.game_now;
        completes_at = m.game_now + Units.build_time a.kind;
      } in
      let (kept, counts) = push_lem m.timeline _ heap in
      rw (a.queued) (
        prov,
        a.kind,
        a.bank,
        order,
        there,
        own,
        a.wanted,
        a.equipped,
        a.idle,
        a.funded,
        a.covered,
        lookup-insert cmd.issuer_slot cmd.issuer_slot paid m.resources
            ∙ (rw (==_refl cmd.issuer_slot)),
        lookup-insert prov.id prov.id order m.next_recruit ∙ (rw (==_refl prov.id)),
        (refl, refl, refl, refl, refl),
        refl,
        kept,
        counts,
      )
