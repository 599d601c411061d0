-- ===== src/Worker/Winner.antt =====
-- The winner that the worker records for a match that the engine has played.
use rts_vibe_code.Prelude.{
  ◌≡◌, ◌≢◌, refl, ap, subst, ◌∙◌, Bool, true, false, ◌&&◌, ◌||◌, Option, none, some, List, [], ◌∷◌,
  ◌==◌, contains, arith, map,
}
use rts_vibe_code.Diplomacy.{Slot}
use rts_vibe_code.Match.{Match, values}
use rts_vibe_code.Match.Frame.{basis}
use rts_vibe_code.Commands.{Env, Command}
use rts_vibe_code.Visibility.Wire
use rts_vibe_code.Visibility.Wire.{PlayerState, player_states}
use rts_vibe_code.Visibility.Sight.{contains-add_if}
use rts_vibe_code.Lobby.{Player}
use rts_vibe_code.Runner.Broadcast.{Publication}
use rts_vibe_code.Runner.Turns.{Moment, on_command, on_tick, on_resync}
use rts_vibe_code.Runner.Sound.{
  TurnsSound, on_command-TurnsSound, on_tick-TurnsSound, on_resync-IsSound,
}
use rts_vibe_code.Worker.{alive_from, sole, winner_user_id}

-- The matches that the turns of a loop lead to.
pub data Played (env : Env) (m : Match) : Match → Type 0 where
  stays : Played env m m
  commanded :
      (m1 : Match)
      → Played env m m1
      → (t : Moment) (cmd : Command) (m2 : Match) (out : List Publication) (checks : Bool)
      → on_command env t m1 cmd ≡ some (m2, out, checks)
      → Played env m m2
  ticked :
      (m1 : Match)
      → Played env m m1
      → (t : Moment) (m2 : Match) (out : List Publication) (checks : Bool)
      → on_tick env t m1 ≡ some (m2, out, checks)
      → Played env m m2
  resynced : (m1 : Match) → Played env m m1 → (t : Moment) → Played env m (on_resync env t m1).0

Played-basis : (env : Env) (m m' : Match) → Played env m m' → basis m' ≡ basis m
Played-basis env m m' stays = refl
Played-basis env m m' (commanded m1 past t cmd m2 out checks e) =
    (subst (TurnsSound m1) e (on_command-TurnsSound env t m1 cmd)).0 ∙ Played-basis env m m1 past
Played-basis env m m' (ticked m1 past t m2 out checks e) =
    (subst (TurnsSound m1) e (on_tick-TurnsSound env t m1)).0 ∙ Played-basis env m m1 past
Played-basis env m m' (resynced m1 past t) =
    (on_resync-IsSound env t m1).0 ∙ Played-basis env m m1 past

-- Whether a player in the slot is alive, on the wire.
abbrev pub lives : Slot → List PlayerState → Bool
lives slot [] = false
lives slot (p ∷ rest) = p.id == slot && p.alive || lives slot rest

contains-alive_from :
    (slot : Slot) (states : List PlayerState) (alive : List Slot)
    → contains slot (alive_from states alive) ≡ lives slot states || contains slot alive
unfolding alive_from
contains-alive_from slot [] alive = refl
contains-alive_from slot (p ∷ rest) alive =
    grind (arith, contains-alive_from slot rest, contains-add_if slot p.id p.alive alive)

two-sole :
    (a b : Slot) (alive : List Slot) (players : List Player)
    → a ≢ b
    → contains a alive ≡ true
    → contains b alive ≡ true
    → sole alive players ≡ none
two-sole a b [] players apart ha hb = refl
two-sole a b (c ∷ []) players apart ha hb = ground (arith, apart, ha, hb)
two-sole a b (c ∷ d ∷ rest) players apart ha hb = refl

-- The players of the wire form are those of the basis.
player_states-basis : (m m' : Match) → basis m' ≡ basis m → player_states m' ≡ player_states m
unfolding player_states
player_states-basis m m' same = ap (λ b. map Wire.player_state (values b.players)) same

-- For a match in which two players are alive, no winner is recorded, whatever the turns of its loop are and whoever
-- has won: no turn takes the life of a player, and the worker looks for the only one alive.
pub winner_never_recorded :
    (env : Env) (m m' : Match) (a b : Slot) (players : Option (List Player))
    → Played env m m'
    → a ≢ b
    → lives a (player_states m) ≡ true
    → lives b (player_states m) ≡ true
    → winner_user_id players (player_states m') ≡ none
unfolding winner_user_id
winner_never_recorded env m m' a b none past apart la lb = refl
winner_never_recorded env m m' a b (some players) past apart la lb =
    let same = player_states-basis m m' (Played-basis env m m' past) in
    rw (same) (
      two-sole a b (alive_from (player_states m) []) players apart
        (rw (contains-alive_from a (player_states m) [], la) refl)
        (rw (contains-alive_from b (player_states m) [], lb) refl))
