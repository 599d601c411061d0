-- ===== src/Pathing/Search.antt =====
-- The search `astar` of internal/domain/pathdom/route.go. The heap holds pointers to the nodes; here it
-- holds their ids, and a node's `index` is the place of its id in the heap.
use rts_vibe_code.Prelude.{
  ℕ, zero, suc, ◌+◌, ◌*◌, Bool, true, false, ◌||◌, Option, none, some, List, [], ◌∷◌, ◌==◌,
  if◌then◌else◌, nat_key, length,
}
use rts_vibe_code.GoMap.{GoMap, lookup, insert}
use rts_vibe_code.Float64.{F64, Float64}
use rts_vibe_code.StaticMap.{neighbors}
use rts_vibe_code.Heap
use rts_vibe_code.Pathing.{Graph, dist}

pub record Node : Type 0 where
  pub id : ℕ
  pub f : F64
  pub g : F64
  pub parent : ℕ
  pub closed : Bool

pub data Outcome : Type 0 where
  found : List ℕ → Outcome
  unreachable exhausted : Outcome

pub record Frontier : Type 0 where
  pub nodes : GoMap ℕ Node
  pub queue : List ℕ

-- The place of an id in the heap.
abbrev index_of : ℕ → List ℕ → Option ℕ
index_of id [] = none
index_of id (x ∷ xs) =
    let rest = index_of id xs in
    if x == id then some 0 else elim rest [ none ↦ none | some i ↦ some (suc i) ]

abbrev new_node : ℕ → F64 → Node
new_node id zero_f = record { id = id; f = zero_f; g = zero_f; parent = 0; closed = false }

module _ (fl : Float64) where
  open fl use {of_ℕ, plus, lt, le}

  abbrev f_or : Option Node → F64
  f_or none = of_ℕ 0
  f_or (some n) = n.f

  -- `h[i].f < h[j].f`
  abbrev closer : GoMap ℕ Node → ℕ → ℕ → Bool
  closer nodes a b = lt (f_or (lookup a nodes)) (f_or (lookup b nodes))

  -- The node of a neighbour after it was reached from `cur`, and the heap with it.
  relax : Graph → ℕ → Node → ℕ → F64 → Node → Frontier → Frontier
  relax g goal cur nb tent_g nn s =
      let nn' = record nn { parent = cur.id; g = tent_g; f = plus tent_g (dist fl g nb goal) } in
      let nodes = insert nb nn' s.nodes in
      record {
        nodes = nodes;
        queue = elim (index_of nb s.queue) [
          | none ↦ Heap.push (closer nodes) s.queue nb
          | some i ↦ Heap.fix (closer nodes) s.queue i
        ];
      }

  -- One turn of the loop over the neighbours, by what `nodes` has for this one.
  abbrev visit_node : Graph → ℕ → Node → ℕ → Option Node → Frontier → Frontier
  visit_node g goal cur nb none s =
      relax g goal cur nb (plus cur.g (dist fl g cur.id nb)) (new_node nb (of_ℕ 0)) s
  visit_node g goal cur nb (some nn) s =
      let tent_g = plus cur.g (dist fl g cur.id nb) in
      if nn.closed || le nn.g tent_g then s else relax g goal cur nb tent_g nn s

  unfoldable pub visit_all : Graph → ℕ → Node → List ℕ → Frontier → Frontier
  unfolding relax
  visit_all g goal cur [] s = s
  visit_all g goal cur (nb ∷ rest) s =
      visit_all g goal cur rest (visit_node g goal cur nb (lookup nb s.nodes) s)

  -- `reconstruct`, with fuel for its turns: the chain of parents, the start first.
  trace : ℕ → GoMap ℕ Node → ℕ → List ℕ → List ℕ
  trace zero nodes cur out = out
  trace (suc fuel) nodes cur out = elim (lookup cur nodes) [
    | none ↦ out
    | some n ↦
        let rest = trace fuel nodes n.parent (n.parent ∷ out) in if n.parent == 0 then out else rest
  ]

  unfoldable pub reconstruct : GoMap ℕ Node → ℕ → List ℕ
  unfolding trace
  reconstruct nodes goal = trace (length nodes) nodes goal (goal ∷ [])

  -- The loop of `astar`, with fuel for its turns; `exhausted` is no outcome of the code.
  astar_from : ℕ → Graph → ℕ → Frontier → Outcome
  astar_from zero g goal s = exhausted
  astar_from (suc fuel) g goal s = elim (Heap.pop (closer s.nodes) s.queue) [
    | none ↦ unreachable
    | some (cur, queue) ↦ elim (lookup cur s.nodes) [
      | none ↦ unreachable
      | some node ↦
          let nodes = insert cur (record node { closed = true }) s.nodes in
          let s' : Frontier = record { nodes = nodes; queue = queue } in
          let next : Outcome =
            astar_from fuel g goal
              (visit_all g goal (record node { closed = true }) (neighbors g.m cur) s') in
          let skip : Outcome = astar_from fuel g goal (record s { queue = queue }) in
          if node.closed then skip else if cur == goal then found (reconstruct nodes goal) else next
    ]
  ]

  -- A turn takes a node off the heap for good, and the nodes are the start and ends of edges.
  unfoldable pub astar : Graph → ℕ → ℕ → Outcome
  unfolding astar_from
  astar g start goal =
      let first : Node = record {
        id = start;
        f = dist fl g start goal;
        g = of_ℕ 0;
        parent = 0;
        closed = false;
      } in
      astar_from (2 * length g.m.edges + 2) g goal
        (record { nodes = (start, first) ∷ []; queue = start ∷ [] })
