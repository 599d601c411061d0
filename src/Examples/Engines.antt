-- ===== src/Examples/Engines.antt =====
-- An engine that hosts the small match.
use rts_vibe_code.Prelude.{[], ◌∷◌, arith, nat_key}
use rts_vibe_code.GoMap.{lookup}
use rts_vibe_code.Diplomacy.Queries
use rts_vibe_code.Match.{Match}
use rts_vibe_code.Commands.{Command}
use rts_vibe_code.Commands.Solvency.{IsSolvent}
use rts_vibe_code.Runner.{new_runner, ensure_match, submit, force_end}
use rts_vibe_code.Runner.Hosting.{Hosting}
use rts_vibe_code.Runner.Hosting.Calls.{Reached, starts, ensures, submits, forces, Reached-Hosting}
use rts_vibe_code.Examples.World.{fl, env, unit, game, command}

abbrev world : Match
world = game Queries.new ((1, unit 1 1 100 10) ∷ [])

world-IsSolvent : IsSolvent world
unfolding lookup
world-IsSolvent slot bank e = (ground (arith, e), ground (arith, e), ground (arith, e))

abbrev recruit : Command
recruit = command "recruit" 10 (("type", "infantry") ∷ [])

hosting : Reached env (ensure_match new_runner 0 world)
hosting = ensures new_runner starts 0 world world-IsSolvent

Reached-Hosting_example :
    Hosting (force_end fl (submit (ensure_match new_runner 0 world) recruit).0 1).0
Reached-Hosting_example =
    Reached-Hosting env (force_end fl (submit (ensure_match new_runner 0 world) recruit).0 1).0 (
      forces (submit (ensure_match new_runner 0 world) recruit).0
        (submits (ensure_match new_runner 0 world) hosting recruit) 1)
