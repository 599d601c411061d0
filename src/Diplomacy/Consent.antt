-- ===== src/Diplomacy/Consent.antt =====
-- The alliances of a registry and the calls of which they are made.
use rts_vibe_code.Prelude.{
  ◌≡◌, refl, Bool, true, false, ◌&&◌, ◌||◌, none, some, List, [], ◌∷◌, arith, ◌==◌, inl, inr,
  Option-cases, ap, sym, ◌∙◌,
}
use rts_vibe_code.GoMap.{lookup}
use rts_vibe_code.Diplomacy.{
  Slot, no_slot, Time, Stance, war, alliance, Pending, pending_none, pending_peace, peace,
  pending_alliance, Treaty, pair_key, Registry,
}
use rts_vibe_code.Diplomacy.Queries.{new, stance, recorded, stance_or_war}
use rts_vibe_code.Diplomacy.Transitions.{
  declare_war, propose, accept, grant_pact, revoke_pact, upsert, bump_version,
}
use rts_vibe_code.Diplomacy.Symmetry.{
  same_two, recorded-same_two, recorded_comm, recorded_of_treaty,
}
use rts_vibe_code.Diplomacy.Effects.{recorded-upsert, declare_war_done, treaties-at_war}
use rts_vibe_code.Diplomacy.Offers.{propose_done, accept_done}
use rts_vibe_code.Diplomacy.History.{
  Action, declares_war, offers_peace, offers_alliance, accepts_peace, accepts_alliance, grants,
  revokes, step, after, step_error_unchanged, ok_pair,
}

abbrev did : (Action → Bool) → List Action → Bool
did p [] = false
did p (act ∷ past) = p act || did p past

abbrev is_offer : Slot → Slot → Action → Bool
is_offer a b (offers_alliance c d now) = a == c && b == d
is_offer a b _ = false

abbrev is_acceptance : Slot → Slot → Action → Bool
is_acceptance a b (accepts_alliance c d now) = a == c && b == d
is_acceptance a b _ = false

-- One of the two offered the alliance to the other, and the other accepted.
abbrev pub is_agreed : Slot → Slot → List Action → Bool
is_agreed a b past =
    did (is_offer a b) past && did (is_acceptance b a) past
    || did (is_offer b a) past && did (is_acceptance a b) past

abbrev Consent : Registry → List Action → Slot → Slot → Type 0
Consent r past a b =
    (t : Treaty)
    → recorded r a b ≡ some t
    → (t.stance ≡ alliance → is_agreed a b past ≡ true)
      × (t.pending ≡ pending_alliance → t.pending_from ≡ a → did (is_offer a b) past ≡ true)

Consent-later :
    (r : Registry) (act : Action) (past : List Action) (a b : Slot)
    → Consent r past a b
    → Consent r (act ∷ past) a b
Consent-later r act past a b h t e = (λ s. ground (arith, h t e), λ p f. ground (arith, h t e))

upsert-Consent :
    (r : Registry) (past : List Action) (a b : Slot) (s : Stance) (p : Pending) (from : Slot)
    (now : Time) (by : Slot) (c d : Slot)
    → Consent r past c d
    → (same_two a b c d ≡ true → s ≡ alliance → is_agreed c d past ≡ true)
    → (same_two a b c d ≡ true → p ≡ pending_alliance → from ≡ c → did (is_offer c d) past ≡ true)
    → Consent (upsert r a b s p from now by) past c d
upsert-Consent r past a b s p from now by c d keep hs hp t e =
    let e' = rw (recorded-upsert r a b s p from now by c d) at e in
    (λ sa. ground (arith, keep t), λ pa f. ground (arith, keep t))

unchanged-Consent :
    (r r' : Registry) (past : List Action) (c d : Slot)
    → r'.treaties ≡ r.treaties
    → Consent r past c d
    → Consent r' past c d
unfolding recorded
unchanged-Consent r r' past c d same keep t e = keep t (rw same at e)

module _ (r : Registry) (past : List Action) (known : (a b : Slot) → Consent r past a b) where
  kept : (act : Action) (c d : Slot) → Consent r (act ∷ past) c d
  kept act c d = Consent-later r act past c d (known c d)

  declare_war-Consent :
      (a b : Slot) (now : Time)
      → declare_war r a b now ≡ ((declare_war r a b now).0, none)
      → (c d : Slot) → Consent (declare_war r a b now).0 (declares_war a b now ∷ past) c d
  declare_war-Consent a b now h c d =
      let (same, _, _, _) = declare_war_done r a b now h in
      rw (← same) (
        unchanged-Consent _ _ (declares_war a b now ∷ past) c d (treaties-at_war r a b now) (
          upsert-Consent r (declares_war a b now ∷ past) a b war pending_none no_slot now a c d
            (kept (declares_war a b now) c d) (λ _ e. cc) (λ _ e. cc)))

  agreed_of_recorded :
      (c d : Slot) → stance_or_war (recorded r c d) ≡ alliance → is_agreed c d past ≡ true
  agreed_of_recorded c d h = elim (Option-cases (recorded r c d)) [
    | inl none_there ↦ absurd (cc (ap stance_or_war none_there))
    | inr (t, e) ↦ (known c d t e).0 (sym (ap stance_or_war e) ∙ h)
  ]

  -- An offer keeps the posture of the treaty, and is itself in the history.
  propose-Consent :
      (act : Action) (a b : Slot) (kind : Pending) (now : Time)
      → (kind ≡ pending_alliance → act ≡ offers_alliance a b now)
      → propose r a b kind now ≡ ((propose r a b kind now).0, none)
      → (c d : Slot) → Consent (propose r a b kind now).0 (act ∷ past) c d
  propose-Consent act a b kind now made h c d =
      let (same, _, _) = propose_done r a b kind now h in
      rw (← same) (
        upsert-Consent r (act ∷ past) a b (stance_or_war (recorded r a b)) kind a now no_slot c d
          (kept act c d)
          (λ hit al. ground (arith, recorded-same_two r a b c d hit, agreed_of_recorded c d))
          (λ hit pa f. ground (arith, made pa)))

  accept-Consent :
      (act : Action) (a b : Slot) (want : Pending) (becomes : Stance) (now : Time)
      → (becomes ≡ alliance → (want ≡ pending_alliance) × (act ≡ accepts_alliance a b now))
      → accept r a b want becomes now ≡ ((accept r a b want becomes now).0, none)
      → (c d : Slot) → Consent (accept r a b want becomes now).0 (act ∷ past) c d
  accept-Consent act a b want becomes now made h c d =
      let (same, _, (t, e, pe, fe)) = accept_done r a b want becomes now h in
      let there : recorded r b a ≡ some t = recorded_comm r b a ∙ recorded_of_treaty r a b e in
      let offered_before = λ (pa : t.pending ≡ pending_alliance). (known b a t there).1 pa fe in
      rw (← same) (
        upsert-Consent r (act ∷ past) a b becomes pending_none no_slot now a c d (kept act c d)
          (λ hit al. ground (arith, made al, offered_before)) (λ _ e. cc))

  pacts_only-Consent :
      (act : Action)
      → (step r act).0.treaties ≡ r.treaties
      → (c d : Slot) → Consent (step r act).0 (act ∷ past) c d
  pacts_only-Consent act same c d = unchanged-Consent r _ (act ∷ past) c d same (kept act c d)

  ok-Consent :
      (act : Action)
      → (step r act).1 ≡ none
      → (c d : Slot) → Consent (step r act).0 (act ∷ past) c d
  unfolding step
  ok-Consent (declares_war a b now) h = declare_war-Consent a b now (ok_pair _ h)
  ok-Consent (offers_peace a b now) h =
      propose-Consent (offers_peace a b now) a b pending_peace now (λ e. cc) (ok_pair _ h)
  ok-Consent (offers_alliance a b now) h =
      propose-Consent (offers_alliance a b now) a b pending_alliance now (λ e. refl) (ok_pair _ h)
  ok-Consent (accepts_peace a b now) h =
      accept-Consent (accepts_peace a b now) a b pending_peace peace now (λ e. absurd (cc))
        (ok_pair _ h)
  ok-Consent (accepts_alliance a b now) h =
      accept-Consent (accepts_alliance a b now) a b pending_alliance alliance now
        (λ e. (refl, refl)) (ok_pair _ h)
  ok-Consent (grants a b k now) h =
      pacts_only-Consent (grants a b k now) (unfold grant_pact bump_version in ground arith)
  ok-Consent (revokes a b k) h =
      pacts_only-Consent (revokes a b k) (unfold revoke_pact bump_version in ground arith)

  step-Consent : (act : Action) (c d : Slot) → Consent (step r act).0 (act ∷ past) c d
  step-Consent act c d = elim (Option-cases (step r act).1) [
    | inl ok ↦ ok-Consent act ok c d
    | inr (e, failed) ↦ rw (step_error_unchanged r act failed) (kept act c d)
  ]

after-Consent : (past : List Action) (c d : Slot) → Consent (after past) past c d
unfolding after new recorded lookup
after-Consent [] c d t e = absurd (cc)
after-Consent (act ∷ past) c d t e = step-Consent (after past) past (after-Consent past) act c d t e

-- Whatever calls have been made on a new registry, two slots that are allied have both agreed: the one
-- offered an alliance to the other at some time, and the other accepted one from it.
pub stance-is_agreed :
    (past : List Action) (a b : Slot)
    → stance (after past) a b ≡ alliance
    → is_agreed a b past ≡ true
unfolding stance
stance-is_agreed past a b h =
    agreed_of_recorded (after past) past (after-Consent past) a b (ground arith)
