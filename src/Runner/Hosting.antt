-- ===== src/Runner/Hosting.antt =====
-- The loops behind the matches that an engine hosts (internal/service/enginesvc/runner.go): an invariant of all
-- calls on the runner and all turns of its loops, in any order.
pub mod Calls
use rts_vibe_code.Prelude.{
  ℕ, suc, ◌+◌, ◌<◌, ◌≤◌, ◌≡◌, ◌≢◌, refl, sym, ap, subst, ◌∙◌, Bool, true, false, Option, none, some,
  List, [], ◌∷◌, ◌++◌, ◌==◌, if◌then◌else◌, arith, length, ltb, nat_key, Bool-cases, Option-cases,
  inl, inr, ◌⊎◌, ==_iff, ==_refl,
}
use rts_vibe_code.GoMap.{GoMap, lookup, insert, delete, lookup-insert, lookup-delete}
use rts_vibe_code.Match.{Match}
use rts_vibe_code.Commands.Solvency.{IsSolvent}
use rts_vibe_code.Runner.{MatchHandle, Runner, queue_capacity, write_loop, new_loop, ensure, unlist}

-- Where the map has a handle, its loop is that of the match, and no Stop has taken it; a loop that no Stop has
-- taken is on the map, and only of those that one has taken the own cancel has been called. No queue is longer than its channel, and no bank of a match is in debt.
pub record Hosting (r : Runner) : Type 0 where
  pub hosted :
      (id k : ℕ)
      → lookup id r.matches ≡ some k
      → (l : MatchHandle) × (lookup k r.loops ≡ some l) × (l.game.id ≡ id) × (l.stopping ≡ false)
  pub live :
      (k : ℕ) (l : MatchHandle)
      → lookup k r.loops ≡ some l
      → l.stopping ≡ false
      → lookup l.game.id r.matches ≡ some k
  pub owed :
      (k : ℕ) (l : MatchHandle) → lookup k r.loops ≡ some l → l.cancelled ≡ true → l.stopping ≡ true
  pub numbered : (k : ℕ) (l : MatchHandle) → lookup k r.loops ≡ some l → k < r.next
  pub queues :
      (k : ℕ) (l : MatchHandle) → lookup k r.loops ≡ some l → length l.cmds ≤ queue_capacity
  pub solvent : (k : ℕ) (l : MatchHandle) → lookup k r.loops ≡ some l → IsSolvent l.game

-- A property of all loops, after one of them is written.
pub lookup_written :
    (P : ℕ → MatchHandle → Type 0) (loops : GoMap ℕ MatchHandle) (k : ℕ) (l : MatchHandle)
    → P k l
    → ((j : ℕ) (l' : MatchHandle) → (k == j) ≡ false → lookup j loops ≡ some l' → P j l')
    → (j : ℕ) (l' : MatchHandle) → lookup j (insert k l loops) ≡ some l'
    → P j l'
lookup_written P loops k l here others j l' =
    rw (lookup-insert k j l loops) (elim (Bool-cases (k == j)) [
      | inl hit ↦ rw hit λ e. subst (λ x. P x l') ((==_iff k j).0 hit) (subst (P k) (cc (e)) here)
      | inr miss ↦ rw miss (others j l' miss)
    ])

-- The loop of a hosted match.
abbrev LoopOf : GoMap ℕ MatchHandle → ℕ → ℕ → Type 0
LoopOf loops id k =
    (l : MatchHandle) × (lookup k loops ≡ some l) × (l.game.id ≡ id) × (l.stopping ≡ false)

LoopOf-insert :
    (loops : GoMap ℕ MatchHandle) (id j k : ℕ) (l' : MatchHandle)
    → ((k == j) ≡ true → (l'.game.id ≡ id) × (l'.stopping ≡ false))
    → ((k == j) ≡ false → LoopOf loops id j)
    → LoopOf (insert k l' loops) id j
LoopOf-insert loops id j k l' here there = elim (Bool-cases (k == j)) [
  | inl hit ↦ (l', rw (lookup-insert k j l' loops, hit) refl, (here hit).0, (here hit).1)
  | inr miss ↦
      let (l, e, same, free) = there miss in
      (l, rw (lookup-insert k j l' loops, miss) e, same, free)
]

-- What a write to a loop may change.
pub record Rewrites (l l' : MatchHandle) : Type 0 where
  pub id : l'.game.id ≡ l.game.id
  pub stopping : l'.stopping ≡ l.stopping
  pub owed : l'.cancelled ≡ true → l'.stopping ≡ true
  pub queue : length l'.cmds ≤ queue_capacity
  pub solvent : IsSolvent l'.game

pub write_loop-Hosting :
    (r : Runner) (k : ℕ) (l l' : MatchHandle)
    → Hosting r
    → lookup k r.loops ≡ some l
    → Rewrites l l'
    → Hosting (write_loop r k l')
write_loop-Hosting r k l l' h e w = record {
  hosted = λ id j on.
      let (x, at, same, free) = h.hosted id j on in
      LoopOf-insert r.loops id j k l'
        (λ hit.
          let one : x ≡ l = cc (at, e, (==_iff k j).0 hit) in
          (
            w.id ∙ ap (λ x. x.game.id) (sym one) ∙ same,
            w.stopping ∙ ap (λ x. x.stopping) (sym one) ∙ free,
          ))
        (λ miss. (x, at, same, free));
  live =
      lookup_written (λ j x. x.stopping ≡ false → lookup x.game.id r.matches ≡ some j) r.loops k l'
        (λ free.
          subst (λ id. lookup id r.matches ≡ some k) (sym w.id)
            (h.live k l e (sym w.stopping ∙ free)))
        (λ j x miss. h.live j x);
  owed =
      lookup_written (λ j x. x.cancelled ≡ true → x.stopping ≡ true) r.loops k l' w.owed
        (λ j x miss. h.owed j x);
  numbered =
      lookup_written (λ j x. j < r.next) r.loops k l' (h.numbered k l e)
        (λ j x miss. h.numbered j x);
  queues =
      lookup_written (λ j x. length x.cmds ≤ queue_capacity) r.loops k l' w.queue
        (λ j x miss. h.queues j x);
  solvent =
      lookup_written (λ j x. IsSolvent x.game) r.loops k l' w.solvent (λ j x miss. h.solvent j x);
}

-- A key that the map does not have is none that it has.
unlisted :
    (matches : GoMap ℕ ℕ) (id other k : ℕ)
    → lookup id matches ≡ none
    → lookup other matches ≡ some k
    → (id == other) ≡ false
unlisted matches id other k e on = elim (Bool-cases (id == other)) [
  | inl hit ↦ absurd (cc (e, on, (==_iff id other).0 hit))
  | inr miss ↦ miss
]

-- A new loop, under the next number.
pub ensure-Hosting :
    (r : Runner) (parent : ℕ) (m : Match) (known : Option ℕ)
    → Hosting r
    → lookup m.id r.matches ≡ known
    → IsSolvent m
    → Hosting (ensure r parent m known)
ensure-Hosting r parent m (some k) h e s = h
ensure-Hosting r parent m none h e s = record {
  hosted = λ id j on. elim (Bool-cases (m.id == id)) [
    | inl hit ↦
        let same : r.next ≡ j = cc (rw (lookup-insert m.id id r.next r.matches, hit) at on) in
        LoopOf-insert r.loops id j r.next (new_loop parent m) (λ at. ((==_iff m.id id).0 hit, refl))
          (λ miss. ground (arith, same, miss))
    | inr other ↦
        let (x, at, its, free) =
          h.hosted id j (rw (lookup-insert m.id id r.next r.matches, other) at on) in
        LoopOf-insert r.loops id j r.next (new_loop parent m)
          (λ hit. ground (arith, hit, h.numbered j x at)) (λ miss. (x, at, its, free))
  ];
  live =
      lookup_written
        (λ j x. x.stopping ≡ false → lookup x.game.id (insert m.id r.next r.matches) ≡ some j)
        r.loops r.next (new_loop parent m)
        (λ free. rw (lookup-insert m.id m.id r.next r.matches, ==_refl m.id) refl)
        (λ j x miss at free.
          let on = h.live j x at free in
          let other : (m.id == x.game.id) ≡ false = unlisted r.matches m.id x.game.id j e on in
          rw (lookup-insert m.id x.game.id r.next r.matches, other) on);
  owed =
      lookup_written (λ j x. x.cancelled ≡ true → x.stopping ≡ true) r.loops r.next
        (new_loop parent m) (λ free. absurd (cc (free))) (λ j x miss. h.owed j x);
  numbered =
      lookup_written (λ j x. j < suc r.next) r.loops r.next (new_loop parent m) (omega arith)
        (λ j x miss at. omega (arith, h.numbered j x at));
  queues =
      lookup_written (λ j x. length x.cmds ≤ queue_capacity) r.loops r.next (new_loop parent m)
        (omega arith) (λ j x miss. h.queues j x);
  solvent =
      lookup_written (λ j x. IsSolvent x.game) r.loops r.next (new_loop parent m) s
        (λ j x miss. h.solvent j x);
}

-- Two matches do not share a loop.
apart_loops :
    (r : Runner)
    → Hosting r
    → (id id' k j : ℕ) → lookup id r.matches ≡ some k
    → lookup id' r.matches ≡ some j
    → (id == id') ≡ false
    → (k == j) ≡ true
    → ⊥
apart_loops r h id id' k j on on' miss hit =
    let (x, at, same, free) = h.hosted id k on in
    let (y, at', same', free') = h.hosted id' j on' in
    let one : x ≡ y = cc (at, at', (==_iff k j).0 hit) in
    let id_same : id ≡ id' = sym same ∙ ap (λ x. x.game.id) one ∙ same' in
    ground (arith, id_same, miss)

-- Two loops are not those of one match.
apart_names :
    (matches : GoMap ℕ ℕ) (id id' k j : ℕ)
    → lookup id matches ≡ some k
    → lookup id' matches ≡ some j
    → (k == j) ≡ false
    → (id == id') ≡ false
apart_names matches id id' k j on on' apart = elim (Bool-cases (id == id')) [
  | inl hit ↦ let same : k ≡ j = cc (on, on', (==_iff id id').0 hit) in ground (arith, same, apart)
  | inr miss ↦ miss
]

-- A match is taken off the map by a Stop.
pub unlist-Hosting :
    (r : Runner) (id k : ℕ) (l : MatchHandle)
    → Hosting r
    → lookup id r.matches ≡ some k
    → lookup k r.loops ≡ some l
    → Hosting (unlist r id (some (k, l)))
unlist-Hosting r id k l h on at =
    let l' : MatchHandle = record l { stopping = true } in
    record {
      hosted = λ id' j on'. elim (Bool-cases (id == id')) [
        | inl hit ↦ absurd (cc (rw (lookup-delete id id' r.matches, hit) at on'))
        | inr miss ↦
            let (x, at', same, free) =
              h.hosted id' j (rw (lookup-delete id id' r.matches, miss) at on') in
            LoopOf-insert r.loops id' j k l'
              (λ hit. absurd (
                apart_loops r h id id' k j on (rw (lookup-delete id id' r.matches, miss) at on')
                  miss hit))
              (λ apart. (x, at', same, free))
      ];
      live =
          lookup_written
            (λ j x. x.stopping ≡ false → lookup x.game.id (delete id r.matches) ≡ some j) r.loops k
            l' (λ free. absurd (cc (free)))
            (λ j x apart at' free.
              let on' = h.live j x at' free in
              rw
                (
                  lookup-delete id x.game.id r.matches,
                  apart_names r.matches id x.game.id k j on on' apart,
                )
                on');
      owed =
          lookup_written (λ j x. x.cancelled ≡ true → x.stopping ≡ true) r.loops k l' (λ _. refl)
            (λ j x miss. h.owed j x);
      numbered =
          lookup_written (λ j x. j < r.next) r.loops k l' (h.numbered k l at)
            (λ j x miss. h.numbered j x);
      queues =
          lookup_written (λ j x. length x.cmds ≤ queue_capacity) r.loops k l' (h.queues k l at)
            (λ j x miss. h.queues j x);
      solvent =
          lookup_written (λ j x. IsSolvent x.game) r.loops k l' (h.solvent k l at)
            (λ j x miss. h.solvent j x);
    }
