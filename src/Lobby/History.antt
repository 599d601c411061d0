-- ===== src/Lobby/History.antt =====
-- Histories of calls of the lobby, and of abandonments by the worker.
use rts_vibe_code.Prelude.{ℕ, Bool, List, [], ◌∷◌}
use rts_vibe_code.Diplomacy.{Slot}
use rts_vibe_code.Lobby.Store.{Store, mark_abandoned}
use rts_vibe_code.Lobby.Phases.{AllLawful, mark_abandoned-Keeps}
use rts_vibe_code.Lobby.Service.{
  Config, CreateInput, get_view, create_match, join, start, leave, kick, handoff, patch_slot_ai,
}
use rts_vibe_code.Lobby.Lawful.{
  create_match-Keeps, join-Keeps, start-Keeps, leave-Keeps, kick-Keeps, handoff-Keeps,
  patch_slot_ai-Keeps, get_view-Keeps,
}

pub data Call : Type 0 where
  gets : ℕ → Call
  creates : CreateInput → Call
  joins : (id user : ℕ) → Slot → Call
  starts : ℕ → Call
  leaves : (id user : ℕ) → Call
  kicks : (id actor target : ℕ) → Call
  hands_off : (id user : ℕ) → Call
  patches : (id actor : ℕ) → Slot → Bool → Call
  abandons : ℕ → Call

-- The store after a call, whatever it answers.
unfoldable pub perform : Config → Call → Store → Store
perform c (gets id) s = (get_view c id s).0
perform c (creates input) s = (create_match c input s).0
perform c (joins id user slot) s = (join c id user slot s).0
perform c (starts id) s = (start c id s).0
perform c (leaves id user) s = (leave c id user s).0
perform c (kicks id actor target) s = (kick c id actor target s).0
perform c (hands_off id user) s = (handoff c id user s).0
perform c (patches id actor slot enable) s = (patch_slot_ai c id actor slot enable s).0
perform c (abandons id) s = (mark_abandoned c.world id s).0

unfoldable pub perform_all : List (Config × Call) → Store → Store
perform_all [] s = s
perform_all ((c, call) ∷ rest) s = perform_all rest (perform c call s)

perform-AllLawful :
    (c : Config) (call : Call) (s : Store)
    → AllLawful s.matches s.versions
    → let s' = perform c call s in AllLawful s'.matches s'.versions
unfolding perform
perform-AllLawful c (gets id) s = (get_view-Keeps c id).lawful s
perform-AllLawful c (creates input) s = (create_match-Keeps c input).lawful s
perform-AllLawful c (joins id user slot) s = (join-Keeps c id user slot).lawful s
perform-AllLawful c (starts id) s = (start-Keeps c id).lawful s
perform-AllLawful c (leaves id user) s = (leave-Keeps c id user).lawful s
perform-AllLawful c (kicks id actor target) s = (kick-Keeps c id actor target).lawful s
perform-AllLawful c (hands_off id user) s = (handoff-Keeps c id user).lawful s
perform-AllLawful c (patches id actor slot enable) s =
    (patch_slot_ai-Keeps c id actor slot enable).lawful s
perform-AllLawful c (abandons id) s = (mark_abandoned-Keeps c.world id).lawful s

-- Whatever calls of the lobby and abandonments there are, whichever calls of the store fail in them: if so far no
-- call of the store has moved a match but by one transition that `CanTransitionTo` allows, or let it appear but
-- as waiting, none does. That is said of every change between two calls of the store, not of the last state only.
pub perform_all-AllLawful :
    (calls : List (Config × Call)) (s : Store)
    → AllLawful s.matches s.versions
    → let s' = perform_all calls s in AllLawful s'.matches s'.versions
unfolding perform_all
perform_all-AllLawful [] s all = all
perform_all-AllLawful ((c, call) ∷ rest) s all =
    perform_all-AllLawful rest (perform c call s) (perform-AllLawful c call s all)
