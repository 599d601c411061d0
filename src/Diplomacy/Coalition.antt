-- ===== src/Diplomacy/Coalition.antt =====
-- `Coalition` of internal/domain/diplomacydom/registry.go: the chains of alliances, and the search's turns.
pub mod Reach
pub mod Leader
use rts_vibe_code.Prelude.{
  ℕ, zero, suc, ◌+◌, ◌-◌, ◌≤◌, ◌<◌, ◌≡◌, ◌≢◌, refl, sym, ap, Bool, true, false, not, ◌&&◌, ◌||◌,
  List, [], ◌∷◌, arith, ◌==◌, ltb, if◌then◌else◌, Bool-cases, inl, inr, length, contains, ◌↔◌, ◌⊎◌,
  ==_iff, ==_refl,
}
use rts_vibe_code.Diplomacy.{Slot, Stance, peace, alliance, same_stance, Registry}
use rts_vibe_code.Diplomacy.Queries.{
  stance, Search, visit, expand, search_from, coalition_search, coalition, coalition_id, least,
}
use rts_vibe_code.Diplomacy.Symmetry.{stance_comm}

abbrev pub allied : Registry → Slot → Slot → Bool
allied r a b = same_stance (stance r a b) alliance

-- A chain of alliances from a slot, through slots of the match.
pub data Linked (r : Registry) (all : List Slot) (slot : Slot) : Slot → Type 0 where
  self : Linked r all slot slot
  ally :
      {a b : Slot}
      → Linked r all slot a
      → allied r a b ≡ true
      → contains b all ≡ true
      → Linked r all slot b

-- How many of the slots of the match are not visited.
abbrev unvisited : List Slot → List Slot → ℕ
unvisited visited [] = 0
unvisited visited (s ∷ rest) =
    let n = unvisited visited rest in if contains s visited then n else suc n

unvisited-le-length : (visited all : List Slot) → unvisited visited all ≤ length all
unvisited-le-length visited [] = omega arith
unvisited-le-length visited (s ∷ rest) = ground (arith, unvisited-le-length visited rest)

unvisited-cons-le :
    (visited : List Slot) (a : Slot) (all : List Slot)
    → unvisited (a ∷ visited) all ≤ unvisited visited all
unvisited-cons-le visited a [] = omega arith
unvisited-cons-le visited a (s ∷ rest) = ground (arith, unvisited-cons-le visited a rest)

-- A new visit to a slot of the match takes one off.
unvisited-cons :
    (visited : List Slot) (a : Slot) (all : List Slot)
    → contains a visited ≡ false
    → contains a all ≡ true
    → unvisited (a ∷ visited) all < unvisited visited all
unvisited-cons visited a [] new there = absurd (cc)
unvisited-cons visited a (s ∷ rest) new there =
    ground (arith, unvisited-cons visited a rest, unvisited-cons-le visited a rest, ==_iff s a)

abbrev work : List Slot → Search → ℕ
work all s = unvisited s.visited all + length s.stack

visit-work :
    (r : Registry) (all : List Slot) (current other : Slot) (s : Search)
    → contains other all ≡ true
    → work all (visit r current other s) ≤ work all s
unfolding visit
visit-work r all current other s there = ground (arith, unvisited-cons s.visited other all)

abbrev pub Within : List Slot → List Slot → Type 0
Within [] all = Unit {0}
Within (s ∷ rest) all = (contains s all ≡ true) × Within rest all

expand-work :
    (r : Registry) (all : List Slot) (current : Slot) (others : List Slot) (s : Search)
    → Within others all
    → work all (expand r current others s) ≤ work all s
unfolding expand
expand-work r all current [] s w = omega arith
expand-work r all current (other ∷ rest) s w = omega (
  arith,
  visit-work r all current other s w.0,
  expand-work r all current rest (visit r current other s) w.1,
)

Within-weaken : (xs all : List Slot) (a : Slot) → Within xs all → Within xs (a ∷ all)
Within-weaken [] all a w = tt
Within-weaken (x ∷ xs) all a w = (ground arith, Within-weaken xs all a w.1)

pub Within-self : (all : List Slot) → Within all all
Within-self [] = tt
Within-self (a ∷ all) = (ground (arith, ==_refl a), Within-weaken all all a (Within-self all))

-- With fuel for the work at hand the search ends with nothing left on the stack.
search_from-ends :
    (fuel : ℕ) (r : Registry) (all visited stack : List Slot)
    → unvisited visited all + length stack ≤ fuel
    → (search_from fuel r all visited stack).stack ≡ []
unfolding search_from
search_from-ends zero r all visited [] h = refl
search_from-ends zero r all visited (c ∷ rest) h = absurd (omega arith)
search_from-ends (suc fuel) r all visited [] h = refl
search_from-ends (suc fuel) r all visited (c ∷ rest) h =
    let s0 : Search = record { visited = visited; stack = rest } in
    search_from-ends fuel r all _ _ (omega (arith, expand-work r all c all s0 (Within-self all)))

-- The search ends with nothing left on its stack.
pub coalition_search-ends :
    (r : Registry) (slot : Slot) (all : List Slot) → (coalition_search r slot all).stack ≡ []
unfolding coalition_search
coalition_search-ends r slot all =
    search_from-ends (length all + 1) r all (slot ∷ []) (slot ∷ [])
      (omega (arith, unvisited-le-length (slot ∷ []) all))
