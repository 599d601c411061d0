-- ===== src/Examples/Lobbies.antt =====
-- A lobby, and what the worker makes of the small match.
use rts_vibe_code.Prelude.{
  ◌≡◌, refl, true, false, none, some, List, [], ◌∷◌, ◌==◌, if◌then◌else◌, arith,
}
use rts_vibe_code.GoMap.{lookup, insert}
use rts_vibe_code.Diplomacy.Queries
use rts_vibe_code.Match.{Match}
use rts_vibe_code.Visibility.Wire.{player_states}
use rts_vibe_code.StaticMap.{Map}
use rts_vibe_code.Lobby.{Status, waiting, active, Player}
use rts_vibe_code.Lobby.Store.{Store, StartPayload, done}
use rts_vibe_code.Lobby
use rts_vibe_code.Lobby.Store
use rts_vibe_code.Lobby.Service
use rts_vibe_code.Lobby.Phases.{status_of, AllLawful}
use rts_vibe_code.Lobby.Service.{Config, MatchView, publish_start_with_fill}
use rts_vibe_code.Lobby.Starting.{publish_start_with_fill_effect}
use rts_vibe_code.Lobby.History.{Call, creates, joins, starts, perform_all, perform_all-AllLawful}
use rts_vibe_code.Runner.Turns.{Moment, on_resync}
use rts_vibe_code.Worker.{winner_user_id}
use rts_vibe_code.Worker.Winner.{stays, resynced, winner_never_recorded}
use rts_vibe_code.Examples.World.{env, unit, game}

abbrev world : Match
world = game Queries.new ((1, unit 1 1 100 10) ∷ [])

abbrev moment : Moment
moment = record { now = 5000; ids = λ n. n; fight_fuel = 9; event_fuel = 9 }

-- The player in slot 1.
abbrev seated : Player
seated = record {
  match_id = 1;
  user_id = 7;
  slot = 1;
  color = "red";
  alive = true;
  controlled_by_ai = false;
  last_seen_at = none;
  joined_at = 0;
}

winner_never_recorded_example :
    winner_user_id (some (seated ∷ [])) (player_states (on_resync env moment world).0) ≡ none
unfolding player_states
winner_never_recorded_example =
    winner_never_recorded env world (on_resync env moment world).0 1 2 (some (seated ∷ []))
      (resynced world stays moment) (omega arith) refl refl

-- A map with two slots, and an empty store with two bots.
abbrev duel_map : Map
duel_map = record {
  id = 1;
  provinces = [];
  edges = [];
  slots =
      record { id = 1; color = "red"; capital = 0 }
      ∷ record { id = 2; color = "blue"; capital = 0 }
      ∷ [];
  starting_units = [];
}

abbrev config : Config
config = record {
  world = record { fails = λ n. false; now = λ n. n; uuid = λ n. 100 };
  load = λ id. if id == 1 then some duel_map else none;
  classic = 1;
  has_bots = true;
  speed = 60;
}

abbrev empty_store : Store
empty_store = record {
  matches = [];
  players = [];
  bots = 8 ∷ 9 ∷ [];
  published = [];
  calls = 0;
  versions = [];
}

-- A user creates a match, which waits, and starts it.
abbrev calls : List (Config × Call)
calls =
    (
      config,
      creates
          (record { name = "duel"; map_id = 1; slot = 0; user_id = 7; auto_start = some false }),
    )
    ∷ (config, starts 100)
    ∷ []

history : status_of 100 (perform_all calls empty_store) ≡ some active
unfolding perform_all Lobby.History.perform lookup insert Lobby.Service.start Lobby.Service.attempt
    Lobby.Service.create_match Lobby.Service.load_or Lobby.Service.guard
    Lobby.Service.slot_exists_on_map Lobby.Service.auto_start_enabled Lobby.Service.view
    Lobby.Service.pure Lobby.Service.publish_start_with_fill Lobby.Service.fill_and_publish
    Lobby.Service.after Lobby.Service.fill_bots Lobby.Service.needed Lobby.Service.seat_bots
    Lobby.Service.slot_color Lobby.Service.fail Lobby.Store.get Lobby.Store.create
    Lobby.Store.add_player Lobby.Store.list_players Lobby.Store.list_bots Lobby.Store.mark_active
    Lobby.Store.mark_starting Lobby.Store.update_status Lobby.Store.upsert_player Lobby.Store.roster
    Lobby.Store.publish_start
history = refl

perform_all-AllLawful_example :
    let s' = perform_all calls empty_store in AllLawful s'.matches s'.versions
perform_all-AllLawful_example = perform_all-AllLawful calls empty_store tt

-- A match that waits, with the player in slot 1.
abbrev waiting_match : Lobby.Match
waiting_match = record {
  id = 100;
  name = "duel";
  map_id = 1;
  status = waiting;
  created_by = 7;
  created_at = 0;
  started_at = none;
  ended_at = none;
  winner_user_id = none;
  speed_factor = 60;
}

abbrev waiting_store : Store
waiting_store = record empty_store {
  matches = (100, waiting_match) ∷ [];
  players = record seated { match_id = 100 } ∷ [];
}

abbrev answer : MatchView
answer = record {
  match = record waiting_match { status = active; started_at = some 6 };
  players =
      record seated { match_id = 100 }
      ∷ record seated {
        match_id = 100;
        user_id = 8;
        slot = 2;
        color = "blue";
        controlled_by_ai = true;
        joined_at = 4;
      }
      ∷ [];
}

abbrev started_store : Store
started_store = (publish_start_with_fill config waiting_match waiting_store).0

starts_it :
    publish_start_with_fill config waiting_match waiting_store ≡ (started_store, done answer)
unfolding lookup insert Lobby.Service.attempt Lobby.Service.load_or Lobby.Service.guard
    Lobby.Service.view Lobby.Service.pure Lobby.Service.publish_start_with_fill
    Lobby.Service.fill_and_publish Lobby.Service.after Lobby.Service.fill_bots Lobby.Service.needed
    Lobby.Service.seat_bots Lobby.Service.slot_color Lobby.Service.fail Lobby.Store.get
    Lobby.Store.add_player Lobby.Store.list_players Lobby.Store.list_bots Lobby.Store.mark_active
    Lobby.Store.mark_starting Lobby.Store.update_status Lobby.Store.upsert_player Lobby.Store.roster
    Lobby.Store.publish_start
starts_it = refl

publish_start_with_fill_effect_example :
    (status_of 100 waiting_store ≡ some waiting)
    × (status_of 100 started_store ≡ some active)
    × (answer.match.status ≡ active)
    × ((p : StartPayload) × (p.match_id ≡ 100)
        × (p.map_id ≡ 1)
        × (started_store.published ≡ p ∷ []))
publish_start_with_fill_effect_example =
    publish_start_with_fill_effect config waiting_match waiting_store started_store answer starts_it
