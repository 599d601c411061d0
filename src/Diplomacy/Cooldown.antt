-- ===== src/Diplomacy/Cooldown.antt =====
-- The cooldown of internal/domain/diplomacydom/transitions.go.
use rts_vibe_code.Diplomacy.History.{
  Action, declares_war, offers_peace, offers_alliance, accepts_peace, accepts_alliance, grants,
  revokes, step, step_error_unchanged, ok_pair,
}
use rts_vibe_code.Prelude.{
  ◌≤◌, ◌∙◌, sym, subst, List, [], ◌∷◌, Bool-cases, Option-cases, inl, inr, ◌+◌, ◌<◌, ◌≡◌, ◌≢◌, refl,
  true, none, some, arith, lt→ltb,
}
use rts_vibe_code.Diplomacy.{
  Slot, no_slot, Time, Stance, war, peace, alliance, pending_peace, pending_alliance, PactKind,
  Pending, pending_none, Treaty, Registry, sorted_pair, pair_key,
}
use rts_vibe_code.Diplomacy.Queries.{treaty, recorded, stance_or_war}
use rts_vibe_code.Diplomacy.Transitions.{
  Err, upsert, propose_peace, propose_alliance, accept_peace, accept_alliance, grant_pact,
  revoke_pact, bump_version, cooldown_between_changes, written, treaty_or_new, declare_war, propose,
  accept, is_cooling,
}
use rts_vibe_code.Diplomacy.Symmetry.{same_two, recorded-same_two, recorded_of_treaty}
use rts_vibe_code.Diplomacy.Effects.{declare_war_done, treaties-at_war, recorded-upsert}
use rts_vibe_code.Diplomacy.Offers.{propose_done, accept_done, treaty-upsert}

-- What stands between two slots since a change at `now`.
abbrev ChangedAt : Registry → Slot → Slot → Time → Type 0
ChangedAt r a b now = (t : Treaty) × (recorded r a b ≡ some t) × (t.changed_at ≡ now)

-- A change between `a` and `b`, by any call that makes one.
pub data Changes (r : Registry) (a b : Slot) (now : Time) (r' : Registry) : Type 0 where
  by_war : declare_war r a b now ≡ (r', none) → Changes r a b now r'
  by_offer : (kind : Pending) → propose r a b kind now ≡ (r', none) → Changes r a b now r'
  by_acceptance :
      (want : Pending) (becomes : Stance)
      → accept r a b want becomes now ≡ (r', none)
      → Changes r a b now r'

Changes-ChangedAt :
    (r : Registry) (a b : Slot) (now : Time) (r' : Registry)
    → Changes r a b now r'
    → ChangedAt r' a b now
Changes-ChangedAt r a b now r' (by_war h) =
    let (same, apart, _, _) = declare_war_done r a b now h in
    let t =
      written (treaty_or_new (sorted_pair a b) (recorded r a b)) war pending_none no_slot now a in
    let there =
      recorded_of_treaty _ a b (treaty-upsert r a b war pending_none no_slot now a apart) in
    (t, rw (← same) (unfold recorded in rw (treaties-at_war r a b now) there), refl)
Changes-ChangedAt r a b now r' (by_offer kind h) =
    let (same, apart, _) = propose_done r a b kind now h in
    (
      written (treaty_or_new (sorted_pair a b) (recorded r a b)) (stance_or_war (recorded r a b))
          kind a now no_slot,
      rw (← same) (recorded_of_treaty _ a b (treaty-upsert r a b _ kind a now no_slot apart)),
      refl,
    )
Changes-ChangedAt r a b now r' (by_acceptance want becomes h) =
    let (same, apart, _) = accept_done r a b want becomes now h in
    (
      written (treaty_or_new (sorted_pair a b) (recorded r a b)) becomes pending_none no_slot now a,
      rw (← same)
          (recorded_of_treaty _ a b (treaty-upsert r a b becomes pending_none no_slot now a apart)),
      refl,
    )

declare_war_cooling :
    (r : Registry) (a b : Slot) (now : Time)
    → is_cooling (recorded r a b) now ≡ true
    → ((declare_war r a b now).1 ≢ none)
unfolding declare_war treaty
declare_war_cooling r a b now h = ground arith

propose_cooling :
    (r : Registry) (a b : Slot) (kind : Pending) (now : Time)
    → is_cooling (recorded r a b) now ≡ true
    → ((propose r a b kind now).1 ≢ none)
unfolding propose
propose_cooling r a b kind now h = ground arith

-- The time of a call, and `now` of a call that has none.
abbrev pub time_of : Time → Action → Time
time_of now (declares_war a b t) = t
time_of now (offers_peace a b t) = t
time_of now (offers_alliance a b t) = t
time_of now (accepts_peace a b t) = t
time_of now (accepts_alliance a b t) = t
time_of now (grants a b k t) = t
time_of now (revokes a b k) = now

-- Two slots have a treaty that was changed at `now` or later.
abbrev pub SinceAt : Registry → Slot → Slot → Time → Type 0
SinceAt r a b now = (t : Treaty) × (recorded r a b ≡ some t) × (now ≤ t.changed_at)

-- No call of the history is earlier.
abbrev pub AllSince : Time → List Action → Type 0
AllSince now [] = Unit
AllSince now (act ∷ past) = (now ≤ time_of now act) × AllSince now past

-- The registry after further calls, the last call first.
unfoldable pub continued : Registry → List Action → Registry
continued r [] = r
continued r (act ∷ past) = (step (continued r past) act).0

upsert-SinceAt :
    (r : Registry) (a b : Slot) (now : Time) (c d : Slot) (s : Stance) (p : Pending) (from : Slot)
    (t : Time) (by : Slot)
    → SinceAt r a b now
    → now ≤ t
    → SinceAt (upsert r c d s p from t by) a b now
upsert-SinceAt r a b now c d s p from t by (old, e, since) later =
    elim (Bool-cases (same_two c d a b)) [
      | inl hit ↦ (
        written (treaty_or_new (sorted_pair c d) (recorded r c d)) s p from t by,
        recorded-upsert r c d s p from t by a b ∙ (rw hit),
        later,
      )
      | inr miss ↦ (old, recorded-upsert r c d s p from t by a b ∙ (rw (miss, e)), since)
    ]

propose_refused :
    (r : Registry) (a b : Slot) (kind : Pending) (t : Time) (e : Err)
    → (propose r a b kind t).1 ≡ some e
    → (propose r a b kind t).0 ≡ r
unfolding propose
propose_refused r a b kind t e h = ground arith

accept_refused :
    (r : Registry) (a b : Slot) (want : Pending) (becomes : Stance) (t : Time) (e : Err)
    → (accept r a b want becomes t).1 ≡ some e
    → (accept r a b want becomes t).0 ≡ r
unfolding accept
accept_refused r a b want becomes t e h = ground arith

-- Two slots between whom a change was made stay so, whatever call comes later.
module _ (r : Registry) (a b : Slot) (now : Time) (here : SinceAt r a b now) (c d : Slot) (t : Time)
    (later : now ≤ t) where
  declare_war-SinceAt : SinceAt (declare_war r c d t).0 a b now
  unfolding declare_war step
  declare_war-SinceAt = elim (Option-cases (declare_war r c d t).1) [
    | inr (e, refused) ↦
        subst (λ x. SinceAt x a b now) (sym (step_error_unchanged r (declares_war c d t) refused))
          here
    | inl ok ↦
        let (same, _, _, _) = declare_war_done r c d t (ok_pair _ ok) in
        let (old, e, since) =
          upsert-SinceAt r a b now c d war pending_none no_slot t c here later in
        rw (← same) (old, (unfold recorded in rw (treaties-at_war r c d t) e), since)
  ]

  propose-SinceAt : (kind : Pending) → SinceAt (propose r c d kind t).0 a b now
  propose-SinceAt kind = elim (Option-cases (propose r c d kind t).1) [
    | inr (e, refused) ↦ rw (propose_refused r c d kind t e refused) here
    | inl ok ↦
        let (same, _, _) = propose_done r c d kind t (ok_pair _ ok) in
        rw (← same) (
          upsert-SinceAt r a b now c d (stance_or_war (recorded r c d)) kind c t no_slot here later)
  ]

  accept-SinceAt :
      (want : Pending) (becomes : Stance) → SinceAt (accept r c d want becomes t).0 a b now
  accept-SinceAt want becomes = elim (Option-cases (accept r c d want becomes t).1) [
    | inr (e, refused) ↦ rw (accept_refused r c d want becomes t e refused) here
    | inl ok ↦
        let (same, _, _) = accept_done r c d want becomes t (ok_pair _ ok) in
        rw (← same) (upsert-SinceAt r a b now c d becomes pending_none no_slot t c here later)
  ]

treaties-grant_pact :
    (r : Registry) (a b : Slot) (k : PactKind) (t : Time)
    → (grant_pact r a b k t).0.treaties ≡ r.treaties
unfolding grant_pact bump_version
treaties-grant_pact r a b k t = ground arith

treaties-revoke_pact :
    (r : Registry) (a b : Slot) (k : PactKind) → (revoke_pact r a b k).0.treaties ≡ r.treaties
unfolding revoke_pact bump_version
treaties-revoke_pact r a b k = ground arith

same_treaties-SinceAt :
    (r r' : Registry) (a b : Slot) (now : Time)
    → r'.treaties ≡ r.treaties
    → SinceAt r a b now
    → SinceAt r' a b now
unfolding recorded
same_treaties-SinceAt r r' a b now same (old, e, since) = (old, rw (same) e, since)

step-SinceAt :
    (r : Registry) (a b : Slot) (now : Time) (act : Action)
    → SinceAt r a b now
    → now ≤ time_of now act
    → SinceAt (step r act).0 a b now
unfolding step propose_peace propose_alliance accept_peace accept_alliance
step-SinceAt r a b now (declares_war c d t) h later = declare_war-SinceAt r a b now h c d t later
step-SinceAt r a b now (offers_peace c d t) h later =
    propose-SinceAt r a b now h c d t later pending_peace
step-SinceAt r a b now (offers_alliance c d t) h later =
    propose-SinceAt r a b now h c d t later pending_alliance
step-SinceAt r a b now (accepts_peace c d t) h later =
    accept-SinceAt r a b now h c d t later pending_peace peace
step-SinceAt r a b now (accepts_alliance c d t) h later =
    accept-SinceAt r a b now h c d t later pending_alliance alliance
step-SinceAt r a b now (grants c d k t) h later =
    same_treaties-SinceAt r _ a b now (treaties-grant_pact r c d k t) h
step-SinceAt r a b now (revokes c d k) h later =
    same_treaties-SinceAt r _ a b now (treaties-revoke_pact r c d k) h

continued-SinceAt :
    (r : Registry) (a b : Slot) (now : Time) (acts : List Action)
    → SinceAt r a b now
    → AllSince now acts
    → SinceAt (continued r acts) a b now
unfolding continued
continued-SinceAt r a b now [] h since = h
continued-SinceAt r a b now (act ∷ past) h (later, since) =
    step-SinceAt (continued r past) a b now act (continued-SinceAt r a b now past h since) later

cooling_of_SinceAt :
    (r : Registry) (a b : Slot) (now later : Time)
    → SinceAt r a b now
    → later < now + cooldown_between_changes
    → is_cooling (recorded r a b) later ≡ true
cooling_of_SinceAt r a b now later (t, e, since) h =
    rw e (lt→ltb later (t.changed_at + cooldown_between_changes) (omega (arith, since, h)))

-- After a declaration of war, an offer or an acceptance between two slots, whatever further calls come,
-- none of them earlier, neither of the two declares war on the other or makes it an offer with success
-- for an hour.
pub cooldown_holds :
    (r : Registry) (a b : Slot) (now : Time) (r' : Registry) (acts : List Action) (c d : Slot)
    (later : Time)
    → Changes r a b now r'
    → AllSince now acts
    → same_two a b c d ≡ true
    → later < now + cooldown_between_changes
    → ((declare_war (continued r' acts) c d later).1 ≢ none)
      × ((kind : Pending) → (propose (continued r' acts) c d kind later).1 ≢ none)
cooldown_holds r a b now r' acts c d later change since pair soon =
    let (t, e, at) = Changes-ChangedAt r a b now r' change in
    let changed = continued-SinceAt r' a b now acts (t, e, (rw at (omega arith))) since in
    let r1 = continued r' acts in
    let cooling' : is_cooling (recorded r1 c d) later ≡ true =
      rw (recorded-same_two r1 a b c d pair) (cooling_of_SinceAt r1 a b now later changed soon) in
    (declare_war_cooling r1 c d later cooling', λ kind. propose_cooling r1 c d kind later cooling')
