-- ===== src/Timeline.antt =====
-- internal/domain/timeline/timeline.go: the priority queue of a match's events, on the heap of the
-- standard package. The heap positions that an event keeps for itself (`index`) are never read.
use rts_vibe_code.Prelude.{ℕ, Bool, Option, none, some, List, [], ◌∷◌, ltb, length}
use rts_vibe_code.Heap
pub mod Order

pub data Kind : Type 0 where
  arrival combat_start combat_tick macro_pulse victory_check recruit_complete construct_complete :
      Kind
  match_cleanup : Kind

pub record Event : Type 0 where
  pub at : ℕ
  pub kind : Kind
  pub unit_id : ℕ
  pub other : ℕ
  pub version : ℕ

abbrev pub Timeline : Type 0
Timeline = List Event

abbrev pub due : Event → ℕ
due e = e.at

-- `h[i].At.Before(h[j].At)`
abbrev before : Event → Event → Bool
before e f = ltb (due e) (due f)

unfoldable pub new : Timeline
new = []

unfoldable pub push : Timeline → Event → Timeline
push t e = Heap.push before t e

pub peek : Timeline → Option Event
peek [] = none
peek (e ∷ rest) = some e

unfoldable pub pop : Timeline → Option (Event × Timeline)
pop [] = none
pop (e ∷ rest) = Heap.pop before (e ∷ rest)

unfoldable len : Timeline → ℕ
len t = length t
