-- ===== src/Events/Loop.antt =====
-- `ProcessNext` of internal/domain/matchdom/events.go.
use rts_vibe_code.Prelude.{
  ℕ, zero, suc, Bool, true, Option, none, some, List, [], ◌++◌, ltb, if◌then◌else◌,
}
use rts_vibe_code.Float64.{Float64}
use rts_vibe_code.Diplomacy.{Time}
use rts_vibe_code.Timeline.{Event}
use rts_vibe_code.Timeline
use rts_vibe_code.Match.{Match, AppliedEvent}
use rts_vibe_code.Events.{handle_event}

-- The ids that `uuid.New` gives, in their order; the fuel of a fight, and the fuel of the loop. `none` when
-- either runs out.
module _ (fl : Float64) (fuel : ℕ) (ids : ℕ → ℕ) where
  abbrev pub with_more :
      List AppliedEvent → Option (Match × List AppliedEvent) → Option (Match × List AppliedEvent)
  with_more out none = none
  with_more out (some (m, more)) = some (m, out ++ more)

  -- The event that is taken off, and what follows its handler.
  abbrev pub taken :
      (Event → Timeline.Timeline → Option (Match × List AppliedEvent))
      → Option (Event × Timeline.Timeline)
      → Option (Match × List AppliedEvent)
  taken go none = none
  taken go (some (ev, rest)) = go ev rest

  abbrev pub followed :
      (Match → Option (Match × List AppliedEvent))
      → Option (Match × List AppliedEvent)
      → Option (Match × List AppliedEvent)
  followed next none = none
  followed next (some (m, applied)) = with_more applied (next m)

  -- `next == nil || next.At.After(now)`
  abbrev pub is_idle : Option Event → Time → Bool
  is_idle none now = true
  is_idle (some ev) now = ltb now ev.at

  unfoldable pub process_next : ℕ → ℕ → Match → Time → Option (Match × List AppliedEvent)
  process_next zero n m now = if is_idle (Timeline.peek m.timeline) now then some (m, []) else none
  process_next (suc steps) n m now =
      let turn =
        taken
          (λ ev rest.
            followed (λ m'. process_next steps (suc n) m' now)
              (handle_event fl fuel (record m { timeline = rest }) ev (ids n)))
          (Timeline.pop m.timeline) in
      if is_idle (Timeline.peek m.timeline) now then some (m, []) else turn
