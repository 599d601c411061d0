-- ===== src/Commands/Production.antt =====
-- internal/domain/cmddom/recruit.go and construct.go.
use Prim.Native.String.{String}
use rts_vibe_code.Prelude.{
  ℕ, ◌+◌, Bool, true, false, not, Option, none, some, [], ◌==◌, if◌then◌else◌, nat_key,
}
use rts_vibe_code.GoMap.{lookup, insert}
use rts_vibe_code.Economy.{Resources, can_pay, pay}
use rts_vibe_code.Catalogue.Units
use rts_vibe_code.Catalogue.Buildings
use rts_vibe_code.Timeline.{recruit_complete, construct_complete}
use rts_vibe_code.Timeline
use rts_vibe_code.Match.{Match, Province, has_building}
use rts_vibe_code.Commands.{
  Command, extra, unauthorized, unknown_command, insufficient_funds, invalid_province,
  unknown_unit_type, factory_required, already_queued, Reply, rejected, accepted,
}

-- The argument `type`, and without it the unit id.
abbrev pub wanted_type : Command → Option String → String
wanted_type cmd none = cmd.unit_id
wanted_type cmd (some t) = t

abbrev pub is_some {ℓ} : {A : Type ℓ} → Option A → Bool
is_some none = false
is_some (some x) = true

abbrev pub lacks_building : Match → ℕ → Option String → Bool
lacks_building m province none = false
lacks_building m province (some req) = not (has_building m province req)

-- The bank that can pay the cost.
abbrev pub solvent : Option Resources → Resources → Option Resources
solvent none cost = none
solvent (some bank) cost = if can_pay bank cost then some bank else none

-- The order is paid, queued and scheduled. `fresh` is the id that `uuid.New` gives.
unfoldable pub queue_recruit : Match → Command → Province → Units.Kind → Resources → ℕ → Match
queue_recruit m cmd prov kind bank fresh =
    let done_at = m.game_now + Units.build_time kind in
    record m {
      resources = insert cmd.issuer_slot (pay bank (Units.cost kind)) m.resources;
      next_recruit =
          insert prov.id
            (record {
              id = fresh;
              owner_slot = cmd.issuer_slot;
              province = prov.id;
              unit_type = Units.id kind;
              issued_at = m.game_now;
              completes_at = done_at;
            })
            m.next_recruit;
      timeline = Timeline.push m.timeline (record {
        at = done_at;
        kind = recruit_complete;
        unit_id = fresh;
        other = 0;
        version = 0;
      });
    }

abbrev pub recruit_paid :
    Match → Command → Province → Units.Kind → ℕ → Option Resources → Match × Reply
recruit_paid m cmd prov kind fresh none = (m, rejected "no_funds" insufficient_funds)
recruit_paid m cmd prov kind fresh (some bank) =
    (queue_recruit m cmd prov kind bank fresh, accepted [])

unfoldable pub recruit_kind : Match → Command → Province → Units.Kind → ℕ → Match × Reply
unfolding queue_recruit
recruit_kind m cmd prov kind fresh =
    if lacks_building m prov.id (Units.needs_building kind)
    then (m, rejected "needs_factory" factory_required)
    else if is_some (lookup prov.id m.next_recruit)
    then (m, rejected "busy" already_queued)
    else recruit_paid m cmd prov kind fresh
        (solvent (lookup cmd.issuer_slot m.resources) (Units.cost kind))

abbrev pub recruit_order : Match → Command → Province → ℕ → Option Units.Kind → Match × Reply
recruit_order m cmd prov fresh none = (m, rejected "bad_unit_type" unknown_unit_type)
recruit_order m cmd prov fresh (some kind) = recruit_kind m cmd prov kind fresh

abbrev pub recruit_in : Match → Command → ℕ → Option Province → Match × Reply
recruit_in m cmd fresh none = (m, rejected "bad_province" invalid_province)
recruit_in m cmd fresh (some prov) =
    if not (prov.owner == cmd.issuer_slot)
    then (m, rejected "unauthorized" unauthorized)
    else recruit_order m cmd prov fresh (Units.by_id (wanted_type cmd (extra cmd "type")))

unfoldable pub apply_recruit : Match → Command → ℕ → Match × Reply
unfolding recruit_kind
apply_recruit m cmd fresh = recruit_in m cmd fresh (lookup cmd.origin m.provinces)

unfoldable pub queue_build : Match → Command → Province → Buildings.Kind → Resources → ℕ → Match
queue_build m cmd prov kind bank fresh =
    let done_at = m.game_now + Buildings.build_time kind in
    record m {
      resources = insert cmd.issuer_slot (pay bank (Buildings.cost kind)) m.resources;
      next_build =
          insert prov.id
            (record {
              id = fresh;
              owner_slot = cmd.issuer_slot;
              province = prov.id;
              building_type = Buildings.id kind;
              issued_at = m.game_now;
              completes_at = done_at;
            })
            m.next_build;
      timeline = Timeline.push m.timeline (record {
        at = done_at;
        kind = construct_complete;
        unit_id = fresh;
        other = 0;
        version = 0;
      });
    }

abbrev pub build_paid :
    Match → Command → Province → Buildings.Kind → ℕ → Option Resources → Match × Reply
build_paid m cmd prov kind fresh none = (m, rejected "no_funds" insufficient_funds)
build_paid m cmd prov kind fresh (some bank) = (queue_build m cmd prov kind bank fresh, accepted [])

unfoldable pub construct_kind : Match → Command → Province → Buildings.Kind → ℕ → Match × Reply
unfolding queue_build
construct_kind m cmd prov kind fresh =
    if has_building m prov.id (Buildings.id kind)
    then (m, rejected "already_built" already_queued)
    else if is_some (lookup prov.id m.next_build)
    then (m, rejected "busy" already_queued)
    else build_paid m cmd prov kind fresh
        (solvent (lookup cmd.issuer_slot m.resources) (Buildings.cost kind))

abbrev pub build_order : Match → Command → Province → ℕ → Option Buildings.Kind → Match × Reply
build_order m cmd prov fresh none = (m, rejected "bad_building_type" unknown_command)
build_order m cmd prov fresh (some kind) = construct_kind m cmd prov kind fresh

abbrev pub build_in : Match → Command → ℕ → Option Province → Match × Reply
build_in m cmd fresh none = (m, rejected "bad_province" invalid_province)
build_in m cmd fresh (some prov) =
    if not (prov.owner == cmd.issuer_slot)
    then (m, rejected "unauthorized" unauthorized)
    else build_order m cmd prov fresh (Buildings.by_id (wanted_type cmd (extra cmd "type")))

unfoldable pub apply_construct : Match → Command → ℕ → Match × Reply
unfolding construct_kind
apply_construct m cmd fresh = build_in m cmd fresh (lookup cmd.origin m.provinces)
