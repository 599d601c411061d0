-- ===== src/Runner/Broadcast.antt =====
-- What internal/service/enginesvc/runner.go publishes. A payload is the record that is marshalled, without the
-- time at which it is sent; the errors of the broadcaster are ignored, as in the code.
use rts_vibe_code.Prelude.{ℕ, List, [], ◌∷◌, ◌++◌, if◌then◌else◌}
use rts_vibe_code.Float64.{Float64}
use rts_vibe_code.Diplomacy.{Slot}
use rts_vibe_code.Match.{Match, AppliedEvent, keys}
use rts_vibe_code.Visibility.Wire.{MatchState, snapshot}
use rts_vibe_code.Visibility.Batch.{Batch, new_batch, slot_observes_event, filtered}

-- The subjects, with the match, the sequence number for a state, and the payload.
pub data Publication : Type 0 where
  public_state final_state : ℕ → ℕ → MatchState → Publication
  slot_state : ℕ → Slot → ℕ → MatchState → Publication
  public_event : ℕ → AppliedEvent → Publication
  slot_event : ℕ → Slot → AppliedEvent → Publication

module _ (fl : Float64) where
  -- The loop over the players of `publishEventPerSlot`.
  unfoldable pub events_to : List Slot → Batch → AppliedEvent → Batch × List Publication
  events_to [] b e = (b, [])
  events_to (slot ∷ rest) b e =
      let (b1, observed) = slot_observes_event fl b slot e in
      let (b2, others) = events_to rest b1 e in
      (b2, if observed then slot_event b.game.id slot e ∷ others else others)

  unfoldable pub publish_event_per_slot : Batch → AppliedEvent → Batch × List Publication
  unfolding events_to
  publish_event_per_slot b e =
      let (b', others) = events_to (keys b.game.players) b e in
      (b', public_event b.game.id e ∷ others)

  -- The loop over the players of `broadcastState`, and of `publishFinalState`.
  unfoldable pub states_to : List Slot → Batch → Batch × List Publication
  states_to [] b = (b, [])
  states_to (slot ∷ rest) b =
      let (b1, view) = filtered fl b slot in
      let (b2, others) = states_to rest b1 in
      (b2, slot_state b.game.id slot b.game.seq view ∷ others)

  unfoldable pub broadcast_state : Batch → Batch × List Publication
  unfolding states_to
  broadcast_state b =
      let (b', others) = states_to (keys b.game.players) b in
      (b', public_state b.game.id b.game.seq (snapshot fl b.game) ∷ others)

  unfoldable pub publish_events : Batch → List AppliedEvent → Batch × List Publication
  unfolding publish_event_per_slot
  publish_events b [] = (b, [])
  publish_events b (e ∷ rest) =
      let (b1, first) = publish_event_per_slot b e in
      let (b2, others) = publish_events b1 rest in (b2, first ++ others)

  unfoldable pub broadcast_events : Match → List AppliedEvent → Match × List Publication
  unfolding publish_events broadcast_state
  broadcast_events m events =
      let (b1, first) = publish_events (new_batch m) events in
      let (b2, others) = broadcast_state b1 in (b2.game, first ++ others)

  unfoldable pub publish_final_state : Match → Match × List Publication
  unfolding states_to
  publish_final_state m =
      let (b, others) = states_to (keys m.players) (new_batch m) in
      (b.game, final_state m.id m.seq (snapshot fl m) ∷ others)
