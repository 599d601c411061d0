-- ===== src/Runner/Sound.antt =====
-- A turn of the loop of a match (internal/service/enginesvc/runner.go) keeps the basis of the match and leaves no
-- bank in debt.
use rts_vibe_code.Prelude.{ℕ, ◌≡◌, refl, ◌∙◌, Option, none, some, List, [], ◌∷◌, ◌++◌, nat_key}
use rts_vibe_code.Float64.{Float64}
use rts_vibe_code.Diplomacy.{Slot}
use rts_vibe_code.Match.{Match, AppliedEvent, keys}
use rts_vibe_code.Match.Frame.{frame}
use rts_vibe_code.Commands.{Env, Command, CmdErr}
use rts_vibe_code.Commands.Basis.{dispatch-basis}
use rts_vibe_code.Commands.Banks.{dispatch-IsSolvent}
use rts_vibe_code.Commands.Dispatch.{dispatch}
use rts_vibe_code.Events.Sound.{
  IsSound, IsSound-trans, frame-IsSound, KeepsSound, process_next-KeepsSound,
}
use rts_vibe_code.Visibility.Batch.{Batch, new_batch, slot_observes_event, filtered}
use rts_vibe_code.Visibility.Framed.{slot_observes_event-frame, filtered-frame}
use rts_vibe_code.Runner.Broadcast.{
  events_to, publish_event_per_slot, states_to, broadcast_state, publish_events, broadcast_events,
  publish_final_state,
}
use rts_vibe_code.Runner.{broadcast_initial}
use rts_vibe_code.Runner.Turns.{
  Moment, Turn, advance_time, due_events, publish_all, with_due, by_error, on_command, ticked,
  on_tick, on_resync,
}

module _ (fl : Float64) where
  events_to-frame :
      (slots : List Slot) (b : Batch) (e : AppliedEvent)
      → frame (events_to fl slots b e).0.game ≡ frame b.game
  unfolding events_to
  events_to-frame [] b e = refl
  events_to-frame (slot ∷ rest) b e =
      let (b1, observed) = slot_observes_event fl b slot e in
      events_to-frame rest b1 e ∙ slot_observes_event-frame fl b slot e

  states_to-frame :
      (slots : List Slot) (b : Batch) → frame (states_to fl slots b).0.game ≡ frame b.game
  unfolding states_to
  states_to-frame [] b = refl
  states_to-frame (slot ∷ rest) b =
      let (b1, view) = filtered fl b slot in states_to-frame rest b1 ∙ filtered-frame fl b slot

  broadcast_state-frame : (b : Batch) → frame (broadcast_state fl b).0.game ≡ frame b.game
  unfolding broadcast_state
  broadcast_state-frame b = states_to-frame (keys b.game.players) b

  publish_events-frame :
      (b : Batch) (events : List AppliedEvent)
      → frame (publish_events fl b events).0.game ≡ frame b.game
  unfolding publish_events publish_event_per_slot
  publish_events-frame b [] = refl
  publish_events-frame b (e ∷ rest) =
      let (b1, first) = publish_event_per_slot fl b e in
      publish_events-frame b1 rest ∙ events_to-frame (keys b.game.players) b e

  broadcast_events-frame :
      (m : Match) (events : List AppliedEvent) → frame (broadcast_events fl m events).0 ≡ frame m
  unfolding broadcast_events new_batch
  broadcast_events-frame m events =
      let (b1, first) = publish_events fl (new_batch m) events in
      broadcast_state-frame b1 ∙ publish_events-frame (new_batch m) events

  pub publish_final_state-frame : (m : Match) → frame (publish_final_state fl m).0 ≡ frame m
  unfolding publish_final_state new_batch
  publish_final_state-frame m = states_to-frame (keys m.players) (new_batch m)

  broadcast_initial-frame : (m : Match) → frame (broadcast_initial fl m).0 ≡ frame m
  unfolding broadcast_initial new_batch
  broadcast_initial-frame m = broadcast_state-frame (new_batch m)

-- What may have come of a turn: nothing, or a match that is sound by this one.
abbrev pub TurnsSound : Match → Option Turn → Type 0
TurnsSound m none = Unit
TurnsSound m (some (m', out, checks)) = IsSound m m'

module _ (env : Env) (t : Moment) where
  advance_time-IsSound : (m : Match) → IsSound m (advance_time env t m)
  unfolding advance_time
  advance_time-IsSound m = frame-IsSound m (advance_time env t m) refl

  publish_all-IsSound :
      (m m' : Match) (events : List AppliedEvent)
      → IsSound m m'
      → IsSound m (publish_all env t m' events).0
  publish_all-IsSound m m' events h =
      let m2 = (broadcast_events env.fl m' events).0 in
      IsSound-trans m m' m2 h (frame-IsSound m' m2 (broadcast_events-frame env.fl m' events))

  due_events-KeepsSound : (n : ℕ) (m : Match) → KeepsSound m (due_events env t n m)
  unfolding due_events
  due_events-KeepsSound n m =
      process_next-KeepsSound env.fl t.fight_fuel t.ids t.event_fuel n m m.game_now

  with_due-TurnsSound :
      (m m' : Match) (immediate : List AppliedEvent) (o : Option (Match × List AppliedEvent))
      → IsSound m m'
      → KeepsSound m' o
      → TurnsSound m (with_due env t immediate o)
  with_due-TurnsSound m m' immediate none h more = tt
  with_due-TurnsSound m m' immediate (some (m2, events)) h more =
      publish_all-IsSound m m2 (immediate ++ events) (IsSound-trans m m' m2 h more)

  by_error-TurnsSound :
      (m m' : Match) (events : List AppliedEvent) (error : Option CmdErr)
      → IsSound m m'
      → TurnsSound m (by_error env t m' events error)
  by_error-TurnsSound m m' events (some e) h = h
  by_error-TurnsSound m m' events none h =
      with_due-TurnsSound m m' events (due_events env t 1 m') h (due_events-KeepsSound 1 m')

  ticked-TurnsSound :
      (m m' : Match) (o : Option (Match × List AppliedEvent))
      → IsSound m m'
      → KeepsSound m' o
      → TurnsSound m (ticked env t o)
  ticked-TurnsSound m m' none h more = tt
  ticked-TurnsSound m m' (some (m2, [])) h more = IsSound-trans m m' m2 h more
  ticked-TurnsSound m m' (some (m2, e ∷ events)) h more =
      publish_all-IsSound m m2 (e ∷ events) (IsSound-trans m m' m2 h more)

  pub on_command-TurnsSound : (m : Match) (cmd : Command) → TurnsSound m (on_command env t m cmd)
  unfolding on_command
  on_command-TurnsSound m cmd =
      let m1 = advance_time env t m in
      let (m2, reply) = dispatch env m1 cmd (t.ids 0) in
      by_error-TurnsSound m m2 reply.events reply.error (
        IsSound-trans m m1 m2 (advance_time-IsSound m)
          (dispatch-basis env m1 cmd (t.ids 0), dispatch-IsSolvent env m1 cmd (t.ids 0)))

  pub on_tick-TurnsSound : (m : Match) → TurnsSound m (on_tick env t m)
  unfolding on_tick
  on_tick-TurnsSound m =
      let m1 = advance_time env t m in
      ticked-TurnsSound m m1 (due_events env t 0 m1) (advance_time-IsSound m)
        (due_events-KeepsSound 0 m1)

  pub on_resync-IsSound : (m : Match) → IsSound m (on_resync env t m).0
  unfolding on_resync
  on_resync-IsSound m =
      let m1 = advance_time env t m in
      let m2 = (broadcast_initial env.fl m1).0 in
      IsSound-trans m m1 m2 (advance_time-IsSound m)
        (frame-IsSound m1 m2 (broadcast_initial-frame env.fl m1))
