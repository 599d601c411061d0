-- ===== src/Runner/Turns.antt =====
-- `runMatch` of internal/service/enginesvc/runner.go: one turn of the loop of a match, for each case of its select.
use rts_vibe_code.Prelude.{
  ℕ, ◌+◌, ◌-◌, Bool, true, false, Option, none, some, List, [], ◌∷◌, ◌++◌, nat_key, if◌then◌else◌,
}
use rts_vibe_code.GoMap.{lookup}
use rts_vibe_code.Diplomacy.{Time}
use rts_vibe_code.Match.{Match, AppliedEvent, active, ended}
use rts_vibe_code.Commands.{Env, Command, CmdErr, Reply}
use rts_vibe_code.Commands.Dispatch.{dispatch}
use rts_vibe_code.Events.Loop.{process_next}
use rts_vibe_code.Runner.Broadcast.{Publication, publish_final_state, broadcast_events}
use rts_vibe_code.Runner.{
  MatchHandle, Runner, write_loop, begin_stop, is_context_done, broadcast_initial,
}

-- The cases of the select: the context, a command, the ticker and a resync.
pub data Case : Type 0 where
  is_done takes_command ticks resyncs : Case

-- What a turn takes from outside: the wall clock, the ids that `uuid.New` gives in their order, and the fuel
-- of a fight and of the loop over the events.
pub record Moment : Type 0 where
  pub now : Time
  pub ids : ℕ → ℕ
  pub fight_fuel : ℕ
  pub event_fuel : ℕ

-- A turn of the body: the match, what is published, and whether the check at the end of the turn is reached,
-- which `continue` skips.
abbrev pub Turn : Type 0
Turn = Match × List Publication × Bool

module _ (env : Env) (t : Moment) where
  -- `advanceTime`, where the wall clock is not before the start.
  unfoldable pub advance_time : Match → Match
  advance_time m =
      let elapsed = env.fl.times (env.fl.of_ℕ (t.now - m.started_at)) m.speed in
      record m { game_now = m.game_start + env.fl.truncate elapsed }

  abbrev pub publish_all : Match → List AppliedEvent → Turn
  publish_all m events = let (m', out) = broadcast_events env.fl m events in (m', out, true)

  -- The events of the command, and those that have become due; `none` when the fuel runs out.
  abbrev pub with_due : List AppliedEvent → Option (Match × List AppliedEvent) → Option Turn
  with_due immediate none = none
  with_due immediate (some (m, events)) = some (publish_all m (immediate ++ events))

  unfoldable pub due_events : ℕ → Match → Option (Match × List AppliedEvent)
  due_events n m = process_next env.fl t.fight_fuel t.ids t.event_fuel n m m.game_now

  abbrev pub by_error : Match → List AppliedEvent → Option CmdErr → Option Turn
  by_error m events (some e) = some (m, [], false)
  by_error m events none = with_due events (due_events 1 m)

  abbrev pub after_dispatch : Match × Reply → Option Turn
  after_dispatch (m, reply) = by_error m reply.events reply.error

  unfoldable pub on_command : Match → Command → Option Turn
  unfolding advance_time due_events
  on_command m cmd = after_dispatch (dispatch env (advance_time m) cmd (t.ids 0))

  abbrev pub ticked : Option (Match × List AppliedEvent) → Option Turn
  ticked none = none
  ticked (some (m, [])) = some (m, [], true)
  ticked (some (m, e ∷ events)) = some (publish_all m (e ∷ events))

  unfoldable pub on_tick : Match → Option Turn
  unfolding advance_time due_events
  on_tick m = ticked (due_events 0 (advance_time m))

  unfoldable pub on_resync : Match → Turn
  unfolding advance_time
  on_resync m = let (m', out) = broadcast_initial env.fl (advance_time m) in (m', out, true)

  -- The check at the end of the turn, of the loop with handle `k`.
  abbrev pub is_over : Match → Bool
  is_over m = elim m.status [ ended ↦ m.cleanup_done | active ↦ false ]

  abbrev pub finish : Runner → ℕ → MatchHandle → List Publication → Bool → Runner × List Publication
  finish r k l out false = (write_loop r k l, out)
  finish r k l out true =
      let (m, last) = publish_final_state env.fl l.game in
      (begin_stop (write_loop r k (record l { game = m; running = false })) m.id, out ++ last)

  abbrev pub after_turn :
      Runner → ℕ → MatchHandle → Option Turn → Option (Runner × List Publication)
  after_turn r k l none = none
  after_turn r k l (some (m, out, false)) = some (write_loop r k (record l { game = m }), out)
  after_turn r k l (some (m, out, true)) = some (finish r k (record l { game = m }) out (is_over m))

  abbrev pub take_first :
      Runner → ℕ → MatchHandle → List Command → Option (Runner × List Publication)
  take_first r k l [] = none
  take_first r k l (cmd ∷ rest) = after_turn r k (record l { cmds = rest }) (on_command l.game cmd)

  -- A case that is not ready is never taken: `none`, as when the fuel runs out.
  abbrev pub take : Runner → ℕ → MatchHandle → Case → Option (Runner × List Publication)
  take r k l is_done =
      if is_context_done r l then some (write_loop r k (record l { running = false }), []) else none
  take r k l takes_command = take_first r k l l.cmds
  take r k l ticks = after_turn r k l (on_tick l.game)
  take r k l resyncs =
      if l.resync
      then after_turn r k (record l { resync = false }) (some (on_resync l.game))
      else none

  abbrev pub take_running :
      Runner → ℕ → Option MatchHandle → Case → Option (Runner × List Publication)
  take_running r k none c = none
  take_running r k (some l) c = if l.running then take r k l c else none

  unfoldable pub turn : Runner → ℕ → Case → Option (Runner × List Publication)
  unfolding on_command on_tick on_resync
  turn r k c = take_running r k (lookup k r.loops) c
