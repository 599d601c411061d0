-- ===== src/Lib.antt =====
-- Verification of the game server: the packages under internal/domain that decide what happens in a match of
-- the strategy game and what its players see, and the runner of internal/service/enginesvc that hosts matches.
--
-- The program. A match (internal/domain/matchdom) keeps provinces, units, banks, buildings and orders, a
-- timeline of events to come (internal/domain/timeline) and a registry of treaties and pacts
-- (internal/domain/diplomacydom). It changes in two ways only: a player's command goes through `Dispatch`
-- (internal/domain/cmddom), and `ProcessNext` takes the events that are due off the timeline and runs their
-- handlers. Routes come from the path finder (internal/domain/pathdom) over the static map
-- (pkg/shared/maps). The runner (internal/service/enginesvc) drives each match by a loop of its own and
-- publishes what internal/domain/visibility lets a slot see. The prices and tables are those of unitdom, buildingdom, economydom and balance.
--
-- The files.
--   Diplomacy          diplomacydom: types.go. Queries is registry.go, Transitions is transitions.go.
--                      Effects and Offers say what a successful call does, History has sequences of
--                      calls; Consent, Cooldown and Coalition are about the registry over time.
--   Timeline, Heap     timeline/timeline.go, on the algorithm of the standard container/heap.
--   Match              matchdom/state.go. Position is PositionAt, Combat is combat.go, Victory is
--                      victory.go, Start is match.go. Frame names what play leaves alone.
--   Movement           matchdom/movement.go.
--   Events             matchdom/event_arrival.go and event_match_cleanup.go. Pulse is event_macro_pulse.go
--                      and economy.go, Completion the events of orders, Loop the loop of events.go.
--   Visibility         visibility/visibility.go. Grid is spatial.go, Batch is batch.go, Wire the snapshots
--                      with diplomacy.go. Cache, Privacy and Sight hold proofs.
--   Runner             internal/service/enginesvc/runner.go: the hosted matches. Turns is the loop of a
--                      match, Broadcast what is published. Sound and Hosting hold proofs.
--   Pathing            pathdom: graph.go. Snap is snap.go, Search and Route are route.go, Treaties is
--                      diplomacy.go.
--   Commands           cmddom: Move, Production (recruit.go, construct.go), Treaty (the diplomatic
--                      commands) and Dispatch (registry.go). Recruitment,
--                      Construction, Refusal, Solvency and Banks hold proofs.
--   Catalogue          unitdom and buildingdom. Economy is economydom and balance. StaticMap is
--                      pkg/shared/maps/maps.go without its loader.
--   Chat               internal/domain/chatdom. Throttle and Service are throttle.go and service.go of
--                      internal/service/chatsvc. Gateway is internal/gateway/ratelimit.go.
--   Lobby              internal/domain/lobbydom. Store is the SQL of the lobby in internal/adapter/pgrepo, Service
--                      is internal/service/lobbysvc. Phases, Lawful, History and Starting hold proofs.
--   Worker             internal/worker/finalstate.go: the winner that is recorded.
--   Prelude, GoMap     numbers, lists and maps. Float64 is the parameter for floating point.
--   Examples           small registries and a small match, on which the theorems are applied.
--
-- How the code is modelled. An operation takes the state and returns it changed; a pointer to a unit that
-- the match holds is a record that is written back. Ids are numbers in the order of their texts, and the
-- empty id is 0. Times are nanoseconds on unbounded numbers. A map is an association list, and what is
-- stated of a loop over a map is stated for every order. Sequence numbers and versions wrap at 2^64. Hit points
-- and resources are float64 in the code but stay whole, or halves of whole numbers after a refund: they are
-- exact here. Coordinates are bit patterns, and the operations on them a parameter (Float64), of which
-- nothing is assumed. `uuid.New` and the parsers of package strconv are parameters as well.
--
-- Fuel. The search of a coalition has a turn for each slot of the match and one more: a slot goes on its
-- stack once. A fight takes the number of its turns as an argument, for which the hit points of the champions
-- serve, as each blow takes some. The path finder has as many turns as it can push nodes, and the loop over
-- the events takes the number of its turns as an argument; a result is `none` when they run out.
--
-- A loop of the runner is a record under a number, its channels are a queue and a flag. Goroutines interleave
-- by whole turns and calls, but `Stop` has two steps, under the mutex and behind it, and a call that has found a
-- loop may reach it late. A fight goes through the champions in one order in all its turns.
-- `maps.Load` is a parameter of the construction of a match.
--
-- An operation of the lobby takes the store and gives it back with its outcome. Each call of the database or the
-- message bus is counted, and a parameter says which of them fail; one that fails changes nothing. What the
-- table of the matches was before each call is kept, for what is stated of every change of it.
--
-- Chat texts are lists of runes, and the texts of uuids a parameter. The tokens of the chat are counted exactly.
--
-- Not modelled: the bots, what else the gateway and the worker do, and all that only moves data
-- (databases, message bus, HTTP, configuration). The logs, the metrics and the JSON form are left out.
pub mod Prelude
pub mod GoMap
pub mod Diplomacy
pub mod Heap
pub mod Float64
pub mod Economy
pub mod Catalogue
pub mod StaticMap
pub mod Timeline
pub mod Match
pub mod Pathing
pub mod Movement
pub mod Events
pub mod Commands
pub mod Visibility
pub mod Examples
pub mod Runner
pub mod Chat
pub mod Gateway
pub mod Lobby
pub mod Worker
