-- ===== src/Visibility/Cache.antt =====
-- The cache of contributors on a match, over calls on its registry and questions of visibility.
use rts_vibe_code.Prelude.{
  ◌+◌, ◌*◌, ◌<◌, ◌≤◌, ◌≡◌, refl, ◌∙◌, subst, Bool, true, false, Option, none, some, List, [], ◌∷◌,
  ◌==◌, arith, inl, inr, Bool-cases, ==_iff, nat_key, length,
}
use rts_vibe_code.GoMap.{GoMap, lookup, insert, lookup-insert}
use rts_vibe_code.Diplomacy.{Slot, Registry}
use rts_vibe_code.Diplomacy.Transitions.{
  declare_war, propose, accept, grant_pact, revoke_pact, upsert, revoke_all_between, bump_version,
}
use rts_vibe_code.Diplomacy.History.{
  Action, step, declares_war, offers_peace, offers_alliance, accepts_peace, accepts_alliance,
  grants, revokes, step_same_version,
}
use rts_vibe_code.Match.{Match, slot_ids}
use rts_vibe_code.Visibility.{
  compute_viewer_contributors, if_current, fresh_cache, answer, viewer_contributors,
}

-- What happens to a match between two publications: a call on its registry, or a question.
pub data Turn : Type 0 where
  calls : Action → Turn
  asks : Slot → Turn

unfoldable pub turn : Match → Turn → Match
turn m (calls act) = record m { diplomacy = (step m.diplomacy act).0 }
turn m (asks slot) = (viewer_contributors m slot).0

-- A match after such turns, the last one first.
unfoldable pub after_turns : Match → List Turn → Match
unfolding turn
after_turns m [] = m
after_turns m (t ∷ past) = turn (after_turns m past) t

-- Every answer that a cache holds is the one that a computation would give.
abbrev Answers : Match → GoMap Slot (List Slot) → Type 0
Answers m cache =
    (slot : Slot) (known : List Slot)
    → lookup slot cache ≡ some known
    → known ≡ compute_viewer_contributors m slot

-- The version of the cache is not ahead of the registry's, and the cache is right if it is up to date.
record IsCoherent (m : Match) : Type 0 where
  behind : m.vis_contributor_version ≤ m.diplomacy.version
  right :
      (cache : GoMap Slot (List Slot))
      → m.vis_contributors ≡ some cache
      → m.vis_contributor_version ≡ m.diplomacy.version
      → Answers m cache

-- A call moves the version by three at most.
step_version :
    (r : Registry) (act : Action)
    → r.version + 3 < 18446744073709551616
    → (r.version ≤ (step r act).0.version) × ((step r act).0.version ≤ r.version + 3)
unfolding step declare_war propose accept grant_pact revoke_pact upsert revoke_all_between
    bump_version
step_version r (declares_war a b now) v = ground arith
step_version r (offers_peace a b now) v = ground arith
step_version r (offers_alliance a b now) v = ground arith
step_version r (accepts_peace a b now) v = ground arith
step_version r (accepts_alliance a b now) v = ground arith
step_version r (grants a b k now) v = ground arith
step_version r (revokes a b k) v = ground arith

Answers-nil : (m : Match) → Answers m []
unfolding lookup
Answers-nil m slot known h = absurd (cc)

if_current-Answers :
    (m : Match) (up_to_date : Bool) (kept : Option (GoMap Slot (List Slot)))
    → ((cache : GoMap Slot (List Slot)) → kept ≡ some cache → up_to_date ≡ true → Answers m cache)
    → Answers m (if_current up_to_date kept)
if_current-Answers m true (some cache) right = right cache refl refl
if_current-Answers m true none right = Answers-nil m
if_current-Answers m false kept right = Answers-nil m

fresh_cache-Answers : (m : Match) → IsCoherent m → Answers m (fresh_cache m)
fresh_cache-Answers m c =
    if_current-Answers m (m.vis_contributor_version == m.diplomacy.version) m.vis_contributors
      λ cache e now. c.right cache e ((==_iff m.vis_contributor_version m.diplomacy.version).0 now)

-- The cache after an answer, on the same registry.
insert-Answers :
    (m : Match) (slot : Slot) (cache : GoMap Slot (List Slot))
    → Answers m cache
    → Answers m (insert slot (compute_viewer_contributors m slot) cache)
insert-Answers m slot cache right s known =
    rw (lookup-insert slot s (compute_viewer_contributors m slot) cache)
      (elim (Bool-cases (slot == s)) [
        | inl hit ↦ let same : slot ≡ s = (==_iff slot s).0 hit in rw hit λ e. rw (← same) (cc (e))
        | inr miss ↦ rw miss (right s known)
      ])

compute_same :
    (m m' : Match) (slot : Slot)
    → m'.diplomacy ≡ m.diplomacy
    → m'.players ≡ m.players
    → compute_viewer_contributors m' slot ≡ compute_viewer_contributors m slot
unfolding compute_viewer_contributors slot_ids
compute_same m m' slot d p = rw (d, p) refl

-- The answer is right, and so is the cache that it leaves.
answer_right :
    (m : Match) (slot : Slot) (cache : GoMap Slot (List Slot)) (known : Option (List Slot))
    → Answers m cache
    → lookup slot cache ≡ known
    → ((answer m slot cache known).1 ≡ compute_viewer_contributors m slot)
      × IsCoherent (answer m slot cache known).0
unfolding compute_viewer_contributors slot_ids
answer_right m slot cache (some known) right e = (
  right slot known e,
  record { behind = omega arith; right = λ c same now. subst (Answers m) (cc (same)) right },
)
answer_right m slot cache none right e = (
  refl,
  record {
    behind = omega arith;
    right = λ c same now. subst (Answers m) (cc (same)) (insert-Answers m slot cache right);
  },
)

-- The registry that a turn leaves has kept its version only if it is the same registry.
turn-IsCoherent :
    (m : Match) (t : Turn)
    → IsCoherent m
    → m.diplomacy.version + 3 < 18446744073709551616
    → IsCoherent (turn m t)
unfolding turn viewer_contributors
turn-IsCoherent m (asks slot) c v =
    (answer_right m slot (fresh_cache m) (lookup slot (fresh_cache m)) (fresh_cache-Answers m c)
      refl).1
turn-IsCoherent m (calls act) c v =
    let (up, _) = step_version m.diplomacy act v in
    let r' = (step m.diplomacy act).0 in
    record {
      behind = omega (arith, c.behind, up);
      right = λ cache e now.
          let still : r'.version ≡ m.diplomacy.version = omega (arith, c.behind, up, now) in
          let same : r' ≡ m.diplomacy =
            step_same_version m.diplomacy act (omega (arith, v)) still in
          rw same (c.right cache e (now ∙ still));
    }

turn_version :
    (m : Match) (t : Turn)
    → m.diplomacy.version + 3 < 18446744073709551616
    → (turn m t).diplomacy.version ≤ m.diplomacy.version + 3
unfolding turn viewer_contributors
turn_version m (calls act) v = (step_version m.diplomacy act v).1
turn_version m (asks slot) v = answer_version (lookup slot (fresh_cache m))
  where
    answer_version :
        (known : Option (List Slot))
        → (answer m slot (fresh_cache m) known).0.diplomacy.version ≤ m.diplomacy.version + 3
    answer_version none = omega arith
    answer_version (some known) = omega arith

after_turns-IsCoherent :
    (m : Match) (past : List Turn)
    → IsCoherent m
    → m.diplomacy.version + 3 * length past < 18446744073709551613
    → IsCoherent (after_turns m past)
      × ((after_turns m past).diplomacy.version ≤ m.diplomacy.version + 3 * length past)
unfolding after_turns
after_turns-IsCoherent m [] c v = (c, omega arith)
after_turns-IsCoherent m (t ∷ past) c v =
    let (kept, low) = after_turns-IsCoherent m past c (omega (arith, v)) in
    let room : (after_turns m past).diplomacy.version + 3 < 18446744073709551616 =
      omega (arith, v, low) in
    (
      turn-IsCoherent (after_turns m past) t kept room,
      omega (arith, low, turn_version (after_turns m past) t room),
    )

-- Whatever calls on the registry and questions have gone before on a match that had no cache, too few to
-- wrap the version, the contributors that the cache answers are the ones that a computation gives.
pub viewer_contributors-compute :
    (m : Match) (past : List Turn) (slot : Slot)
    → m.vis_contributors ≡ none
    → m.vis_contributor_version ≡ 0
    → m.diplomacy.version + 3 * length past < 18446744073709551613
    → (viewer_contributors (after_turns m past) slot).1
      ≡ compute_viewer_contributors (after_turns m past) slot
unfolding viewer_contributors
viewer_contributors-compute m past slot empty zero_version v =
    let start : IsCoherent m = record {
      behind = omega (arith, zero_version);
      right = λ cache e now. absurd (cc (empty, e));
    } in
    let (c, _) = after_turns-IsCoherent m past start v in
    let m' = after_turns m past in
    (answer_right m' slot (fresh_cache m') (lookup slot (fresh_cache m')) (fresh_cache-Answers m' c)
      refl).0
