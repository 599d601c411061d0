-- ===== src/Examples.antt =====
-- Tests of the definitions, and the theorems at concrete inputs.
mod Treaties
mod World
mod Battles
mod Orders
mod Views
mod Engines
mod Talks
mod Lobbies
