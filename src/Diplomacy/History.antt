-- ===== src/Diplomacy/History.antt =====
-- The calls that the commands make on the registry, and the registry after a sequence of them.
use rts_vibe_code.Prelude.{
  ◌<◌, ◌≡◌, ◌≢◌, inl, inr, Option-cases, Option, none, some, List, [], ◌∷◌, arith,
}
use rts_vibe_code.Diplomacy.{Slot, Time, PactKind, Registry, pact_key, pair_key}
use rts_vibe_code.Diplomacy.Queries.{new}
use rts_vibe_code.Diplomacy.Transitions.{
  Err, declare_war, propose, propose_peace, propose_alliance, accept, accept_peace, accept_alliance,
  grant_pact, revoke_pact, upsert, revoke_all_between, bump_version,
}

pub data Action : Type 0 where
  declares_war offers_peace offers_alliance accepts_peace accepts_alliance :
      Slot → Slot → Time → Action
  grants : Slot → Slot → PactKind → Time → Action
  revokes : Slot → Slot → PactKind → Action

unfoldable pub step : Registry → Action → Registry × Option Err
unfolding propose_peace propose_alliance accept_peace accept_alliance
step r (declares_war a b now) = declare_war r a b now
step r (offers_peace a b now) = propose_peace r a b now
step r (offers_alliance a b now) = propose_alliance r a b now
step r (accepts_peace a b now) = accept_peace r a b now
step r (accepts_alliance a b now) = accept_alliance r a b now
step r (grants a b k now) = grant_pact r a b k now
step r (revokes a b k) = revoke_pact r a b k

-- The registry of a match after a history of calls, the last call first.
unfoldable pub after : List Action → Registry
after [] = new
after (act ∷ past) = (step (after past) act).0

-- A call that is refused leaves the registry as it was.
pub step_error_unchanged :
    (r : Registry) (act : Action) {e : Err} → (step r act).1 ≡ some e → (step r act).0 ≡ r
unfolding step declare_war propose accept grant_pact revoke_pact
step_error_unchanged r (declares_war a b now) h = ground arith
step_error_unchanged r (offers_peace a b now) h = ground arith
step_error_unchanged r (offers_alliance a b now) h = ground arith
step_error_unchanged r (accepts_peace a b now) h = ground arith
step_error_unchanged r (accepts_alliance a b now) h = ground arith
step_error_unchanged r (grants a b k now) h = ground arith
step_error_unchanged r (revokes a b k) h = ground arith

step_ok_bumps :
    (r : Registry) (act : Action)
    → r.version < 18446744073709551616
    → (step r act).1 ≡ none
    → (step r act).0.version ≢ r.version
unfolding step declare_war propose accept grant_pact revoke_pact upsert revoke_all_between
    bump_version
step_ok_bumps r (declares_war a b now) v h = ground arith
step_ok_bumps r (offers_peace a b now) v h = ground arith
step_ok_bumps r (offers_alliance a b now) v h = ground arith
step_ok_bumps r (accepts_peace a b now) v h = ground arith
step_ok_bumps r (accepts_alliance a b now) v h = ground arith
step_ok_bumps r (grants a b k now) v h = ground arith
step_ok_bumps r (revokes a b k) v h = ground arith

-- A call that leaves the version as it was, a number below 2^64, has changed nothing.
pub step_same_version :
    (r : Registry) (act : Action)
    → r.version < 18446744073709551616
    → (step r act).0.version ≡ r.version
    → (step r act).0 ≡ r
step_same_version r act v h = elim (Option-cases (step r act).1) [
  | inl ok ↦ absurd (step_ok_bumps r act v ok h)
  | inr (e, failed) ↦ step_error_unchanged r act failed
]

-- The outcome of a call that succeeds.
pub ok_pair : (x : Registry × Option Err) → x.1 ≡ none → x ≡ (x.0, none)
ok_pair x e = λ i. (x.0, e i)
