-- ===== src/Commands/Construction.antt =====
-- A construction order that is accepted: `constructHandler` of internal/domain/cmddom/construct.go.
use rts_vibe_code.Prelude.{
  ℕ, ◌+◌, ◌≡◌, refl, Bool, true, false, Option, none, some, ◌==◌, arith, nat_key, inl, inr,
  Bool-cases, Option-cases, ==_refl, ==_iff, ◌∙◌,
}
use rts_vibe_code.GoMap.{lookup, lookup-insert}
use rts_vibe_code.Heap.Array.{count, one}
use rts_vibe_code.Economy.{Resources, can_pay, pay}
use rts_vibe_code.Catalogue.Buildings
use rts_vibe_code.Timeline.{Event, construct_complete}
use rts_vibe_code.Timeline.Order.{IsTimeline, push_lem}
use rts_vibe_code.Match.{Match, Province, BuildOrder, has_building}
use rts_vibe_code.Commands.{Command, extra}
use rts_vibe_code.Commands.Production.{
  solvent, build_paid, construct_kind, build_order, build_in, queue_build, apply_construct,
  wanted_type,
}
use rts_vibe_code.Commands.Recruitment.{solvent-some}

module _ (m : Match) (cmd : Command) (fresh : ℕ) where
  -- What an accepted order has found, and the match that it leaves.
  record Accepts (prov : Province) (outcome : Match) : Type 0 where
    kind : Buildings.Kind
    bank : Resources
    unbuilt : has_building m prov.id (Buildings.id kind) ≡ false
    idle : lookup prov.id m.next_build ≡ none
    funded : lookup cmd.issuer_slot m.resources ≡ some bank
    covered : can_pay bank (Buildings.cost kind) ≡ true
    queued : outcome ≡ queue_build m cmd prov kind bank fresh

  build_paid_done :
      (prov : Province) (kind : Buildings.Kind) (o : Option Resources)
      → (build_paid m cmd prov kind fresh o).1.error ≡ none
      → (bank : Resources) × (o ≡ some bank)
        × ((build_paid m cmd prov kind fresh o).0 ≡ queue_build m cmd prov kind bank fresh)
  build_paid_done prov kind none h = absurd (cc)
  build_paid_done prov kind (some bank) h = (bank, refl, refl)

  construct_kind_done :
      (prov : Province) (kind : Buildings.Kind)
      → (construct_kind m cmd prov kind fresh).1.error ≡ none
      → Accepts prov (construct_kind m cmd prov kind fresh).0
  unfolding construct_kind
  construct_kind_done prov kind h = elim (Bool-cases (has_building m prov.id (Buildings.id kind))) [
    | inl built ↦ ground (arith, h, built)
    | inr unbuilt ↦ elim (Option-cases (lookup prov.id m.next_build)) [
      | inr (order, busy) ↦ ground (arith, h, unbuilt, busy)
      | inl idle ↦
          let (bank, solvent, queued) =
            build_paid_done prov kind
              (solvent (lookup cmd.issuer_slot m.resources) (Buildings.cost kind))
              (rw (unbuilt, idle) at h) in
          let (funded, covered) =
            solvent-some (lookup cmd.issuer_slot m.resources) (Buildings.cost kind) bank solvent in
          record {
            kind = kind;
            bank = bank;
            unbuilt = unbuilt;
            idle = idle;
            funded = funded;
            covered = covered;
            queued = rw (unbuilt, idle) queued;
          }
    ]
  ]

  build_order_done :
      (prov : Province) (kind : Option Buildings.Kind)
      → (build_order m cmd prov fresh kind).1.error ≡ none
      → Accepts prov (build_order m cmd prov fresh kind).0
  build_order_done prov none h = absurd (cc)
  build_order_done prov (some kind) h = construct_kind_done prov kind h

  build_in_done :
      (p : Option Province)
      → (build_in m cmd fresh p).1.error ≡ none
      → (prov : Province) × (p ≡ some prov)
        × (prov.owner ≡ cmd.issuer_slot)
        × Accepts prov (build_in m cmd fresh p).0
  build_in_done none h = absurd (cc)
  build_in_done (some prov) h = elim (Bool-cases (prov.owner == cmd.issuer_slot)) [
    | inr foreign ↦ ground (arith, h, foreign)
    | inl own ↦
        let kind = Buildings.by_id (wanted_type cmd (extra cmd "type")) in
        (
          prov,
          refl,
          (==_iff prov.owner cmd.issuer_slot).0 own,
          rw own (build_order_done prov kind (rw own at h)),
        )
  ]

  -- A construction order that is accepted, in a match whose timeline is a heap, is for an own province
  -- without a building of this type and with no construction under way. The bank of the issuer covered
  -- the price and has paid exactly that, the order of the issuer stands at the province, and one event is scheduled,
  -- its completion when the building time has passed; the timeline stays a heap.
  pub apply_construct_effect :
      IsTimeline m.timeline
      → (apply_construct m cmd fresh).1.error ≡ none
      → let m' = (apply_construct m cmd fresh).0 in
        (prov : Province) × (kind : Buildings.Kind) × (bank : Resources) × (order : BuildOrder)
        × (lookup cmd.origin m.provinces ≡ some prov)
        × (prov.owner ≡ cmd.issuer_slot)
        × (has_building m prov.id (Buildings.id kind) ≡ false)
        × (lookup prov.id m.next_build ≡ none)
        × (lookup cmd.issuer_slot m.resources ≡ some bank)
        × (can_pay bank (Buildings.cost kind) ≡ true)
        × (lookup cmd.issuer_slot m'.resources ≡ some (pay bank (Buildings.cost kind)))
        × (lookup prov.id m'.next_build ≡ some order)
        × ((order.id ≡ fresh)
            × (order.owner_slot ≡ cmd.issuer_slot)
            × (order.province ≡ prov.id)
            × (order.building_type ≡ Buildings.id kind)
            × (order.issued_at ≡ m.game_now))
        × (order.completes_at ≡ m.game_now + Buildings.build_time kind)
        × IsTimeline m'.timeline
        × ((p : Event → Bool)
            → count p m'.timeline
              ≡ count p m.timeline
                + one p (record {
                  at = order.completes_at;
                  kind = construct_complete;
                  unit_id = order.id;
                  other = 0;
                  version = 0;
                }))
  unfolding apply_construct queue_build
  apply_construct_effect heap h =
      let (prov, there, own, a) = build_in_done (lookup cmd.origin m.provinces) h in
      let paid = pay a.bank (Buildings.cost a.kind) in
      let order : BuildOrder = record {
        id = fresh;
        owner_slot = cmd.issuer_slot;
        province = prov.id;
        building_type = Buildings.id a.kind;
        issued_at = m.game_now;
        completes_at = m.game_now + Buildings.build_time a.kind;
      } in
      let (kept, counts) = push_lem m.timeline _ heap in
      rw (a.queued) (
        prov,
        a.kind,
        a.bank,
        order,
        there,
        own,
        a.unbuilt,
        a.idle,
        a.funded,
        a.covered,
        lookup-insert cmd.issuer_slot cmd.issuer_slot paid m.resources
            ∙ (rw (==_refl cmd.issuer_slot)),
        lookup-insert prov.id prov.id order m.next_build ∙ (rw (==_refl prov.id)),
        (refl, refl, refl, refl, refl),
        refl,
        kept,
        counts,
      )
