-- ===== src/Worker.antt =====
-- internal/worker/finalstate.go: what the worker makes of the last snapshot of a match.
pub mod Winner
use rts_vibe_code.Prelude.{
  ℕ, Bool, Option, none, some, List, [], ◌∷◌, ◌==◌, if◌then◌else◌, contains,
}
use rts_vibe_code.Diplomacy.{Slot}
use rts_vibe_code.StaticMap.{add_once}
use rts_vibe_code.Visibility.Wire.{PlayerState}
use rts_vibe_code.Lobby.{Player}

-- The keys of `alive` after the loop over the players of the snapshot.
unfoldable pub alive_from : List PlayerState → List Slot → List Slot
alive_from [] alive = alive
alive_from (p ∷ rest) alive = alive_from rest (if p.alive then add_once p.id alive else alive)

-- The first player of the slot.
unfoldable pub user_in : Slot → List Player → Option ℕ
user_in slot [] = none
user_in slot (p ∷ rest) = if p.slot == slot then some p.user_id else user_in slot rest

abbrev pub sole : List Slot → List Player → Option ℕ
sole (slot ∷ []) players = user_in slot players
sole _ players = none

-- `winnerUserID`, over the players that the repository lists, `none` on its error; the nil uuid is `none`.
unfoldable pub winner_user_id : Option (List Player) → List PlayerState → Option ℕ
unfolding alive_from user_in
winner_user_id none states = none
winner_user_id (some players) states = sole (alive_from states []) players
