-- ===== src/Commands/Move.antt =====
-- internal/domain/cmddom/move.go.
use Prim.Native.String.{String}
use text.Mathlib.Text.{◌==◌ as same_text}
use rts_vibe_code.Prelude.{
  ℕ, ◌+◌, Bool, false, not, ◌&&◌, Option, none, some, List, [], ◌∷◌, ◌++◌, ◌==◌, if◌then◌else◌,
  nat_key, u64,
}
use rts_vibe_code.GoMap.{lookup}
use rts_vibe_code.Float64.{F64}
use rts_vibe_code.StaticMap.{has_edge}
use rts_vibe_code.Match.{Match, GameUnit, Province, Target, target_node, target_edge, is_moving}
use rts_vibe_code.Match.Position.{position_at}
use rts_vibe_code.Pathing.{Leg, new_graph}
use rts_vibe_code.Pathing.Snap.{snap_target}
use rts_vibe_code.Pathing.Route.{route_from_edge}
use rts_vibe_code.Pathing.Treaties.{route_blocked}
use rts_vibe_code.Movement.{put_unit, province_owners, set_unit_path, start_next_waypoint}
use rts_vibe_code.Commands.{
  text_key, Env, Command, extra, arg_or_empty, unknown_unit, unauthorized, invalid_dest, no_speed,
  Reply, rejected, accepted,
}

module _ (env : Env) where
  open env use {fl, id_of, parse_float, parse_bool}

  abbrev snapped_to : Target → ℕ
  snapped_to t = elim t.kind [ target_node ↦ t.province | target_edge ↦ t.edge_from ]

  unfoldable pub nearest_province : Match → F64 → F64 → ℕ
  nearest_province m x y = snapped_to (snap_target fl (new_graph m.static_map) x y)

  abbrev arg : Command → String → String
  arg cmd key = arg_or_empty (lookup key cmd.args)

  abbrev or_zero_float : Option F64 → F64
  or_zero_float (some t) = t
  or_zero_float none = fl.of_ℕ 0

  -- The switch over the text of the kind, with the two coordinates.
  abbrev explicit_target : Match → Command → String → Option F64 → Option F64 → Option Target
  explicit_target m cmd kind (some x) (some y) =
      let named = id_of (arg cmd "target_province") in
      if same_text kind "node"
      then some (record {
        kind = target_node;
        province = if named == 0 then nearest_province m x y else named;
        edge_from = 0;
        edge_to = 0;
        x = x;
        y = y;
        t = fl.of_ℕ 0;
      })
      else if same_text kind "edge"
      then some (record {
        kind = target_edge;
        province = 0;
        edge_from = id_of (arg cmd "edge_from");
        edge_to = id_of (arg cmd "edge_to");
        x = x;
        y = y;
        t = or_zero_float (parse_float (arg cmd "edge_t"));
      })
      else none
  explicit_target m cmd kind _ _ = none

  abbrev to_province : Province → Target
  to_province p = record {
    kind = target_node;
    province = p.id;
    edge_from = 0;
    edge_to = 0;
    x = p.x;
    y = p.y;
    t = fl.of_ℕ 0;
  }

  -- The move from province to province.
  abbrev legacy_target : Match → Command → Option Province → Option Province → Option Target
  legacy_target m cmd none origin = none
  legacy_target m cmd (some to) origin =
      if cmd.origin == 0 then some (to_province to) else elim origin [
        | none ↦ none
        | some p ↦
            if not (has_edge m.static_map p.id to.id) && not (p.id == to.id)
            then none
            else some (to_province to)
      ]

  -- `none` is ErrInvalidDest, the only error.
  unfoldable pub parse_move_target : Match → Command → Option Target
  parse_move_target m cmd = elim (extra cmd "target_kind") [
    | some kind ↦
        explicit_target m cmd kind (parse_float (arg cmd "target_x"))
          (parse_float (arg cmd "target_y"))
    | none ↦ legacy_target m cmd (lookup cmd.dest m.provinces) (lookup cmd.origin m.provinces)
  ]

  abbrev bumped : GameUnit → GameUnit
  bumped u = record u { version = u64 (u.version + 1) }

  -- The branch of a queued waypoint.
  unfoldable pub enqueue : Match → GameUnit → Target → Match × Reply
  enqueue m u target =
      let queued = record u { waypoints = u.waypoints ++ target ∷ [] } in
      let m_queued = put_unit m queued in
      let (m', u', started) =
        start_next_waypoint fl (put_unit m_queued (bumped queued)) (bumped queued) m.game_now in
      if is_moving queued m.game_now
      then (m_queued, accepted [])
      else if started
      then (m', accepted [])
      else (m', rejected "blocked_by_treaty" invalid_dest)

  abbrev pub along_route : Match → Command → GameUnit → Option (List Leg) → Match × Reply
  along_route m cmd u none = (m, rejected "no_route" invalid_dest)
  along_route m cmd u (some legs) =
      let free = bumped (record u { waypoints = [] }) in
      let (m', u') = set_unit_path fl (put_unit m free) free legs m.game_now in
      if route_blocked m.diplomacy cmd.issuer_slot (province_owners m) legs
      then (m, rejected "blocked_by_treaty" invalid_dest)
      else (m', accepted [])

  -- The branch of an order that takes effect at once.
  unfoldable pub redirect : Match → Command → GameUnit → Target → Match × Reply
  redirect m cmd u target =
      let (x, y) = position_at fl u m.game_now in
      along_route m cmd u (route_from_edge fl (new_graph m.static_map) x y u.origin u.dest target)

  abbrev wants_queue : Option String → Bool
  wants_queue none = false
  wants_queue (some q) = parse_bool q

  unfoldable pub move_unit : Match → Command → GameUnit → Match × Reply
  unfolding enqueue redirect
  move_unit m cmd u =
      let moved : Match × Reply = elim (parse_move_target m cmd) [
        | none ↦ (m, rejected "bad_target" invalid_dest)
        | some target ↦
            if wants_queue (extra cmd "queue") then enqueue m u target else redirect m cmd u target
      ] in
      if not (u.owner_slot == cmd.issuer_slot)
      then (m, rejected "unauthorized" unauthorized)
      else if fl.le u.speed (fl.of_ℕ 0)
      then (m, rejected "no_speed" no_speed)
      else moved

  unfoldable pub apply_move : Match → Command → Match × Reply
  unfolding move_unit
  apply_move m cmd = elim (lookup (id_of cmd.unit_id) m.units) [
    | none ↦ (m, rejected "unknown_unit" unknown_unit)
    | some u ↦ move_unit m cmd u
  ]
