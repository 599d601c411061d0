-- ===== src/Diplomacy.antt =====
-- internal/domain/diplomacydom/types.go: the records of the diplomatic registry, and the keys of its
-- two maps (registry.go). Slots are numbers in the order of their ids; the empty id is 0.
pub mod Queries
pub mod Transitions
pub mod Symmetry
pub mod Effects
pub mod Offers
pub mod History
pub mod Consent
pub mod Cooldown
pub mod Coalition
use rts_vibe_code.Prelude.{
  ℕ, ◌≡◌, ◌↔◌, Bool, true, false, ◌&&◌, arith, ltb, ◌==◌, if◌then◌else◌, Key,
}
use rts_vibe_code.GoMap.{GoMap}

abbrev pub Slot : Type 0
Slot = ℕ

abbrev pub no_slot : Slot
no_slot = 0

-- Nanoseconds since an epoch.
abbrev pub Time : Type 0
Time = ℕ

pub data Stance : Type 0 where
  war peace alliance : Stance

pub data Pending : Type 0 where
  pending_none pending_peace pending_alliance : Pending

pub data PactKind : Type 0 where
  share_map right_of_way : PactKind

-- The tests `==` of the three enumerations.
abbrev pub same_stance : Stance → Stance → Bool
same_stance war war = true
same_stance peace peace = true
same_stance alliance alliance = true
same_stance _ _ = false

abbrev pub same_pending : Pending → Pending → Bool
same_pending pending_none pending_none = true
same_pending pending_peace pending_peace = true
same_pending pending_alliance pending_alliance = true
same_pending _ _ = false

abbrev same_kind : PactKind → PactKind → Bool
same_kind share_map share_map = true
same_kind right_of_way right_of_way = true
same_kind _ _ = false

pub record Treaty : Type 0 where
  pub slot_a : Slot
  pub slot_b : Slot
  pub stance : Stance
  pub pending : Pending
  pub pending_from : Slot
  pub changed_at : Time
  pub last_change_from : Slot

pub record Pact : Type 0 where
  pub granter : Slot
  pub grantee : Slot
  pub kind : PactKind
  pub granted_at : Time

pub record PairKey : Type 0 where
  pub a : Slot
  pub b : Slot

pub record PactKey : Type 0 where
  pub granter : Slot
  pub grantee : Slot
  pub kind : PactKind

abbrev pub same_pair : PairKey → PairKey → Bool
same_pair p q = p.a == q.a && p.b == q.b

abbrev same_pact : PactKey → PactKey → Bool
same_pact p q = p.granter == q.granter && (p.grantee == q.grantee && same_kind p.kind q.kind)

pub same_pair_iff : (p q : PairKey) → (same_pair p q ≡ true) ↔ (p ≡ q)
same_pair_iff p q = ground arith

pub same_pact_iff : (p q : PactKey) → (same_pact p q ≡ true) ↔ (p ≡ q)
same_pact_iff p q = ground arith

instance abbrev pub pair_key : Key PairKey
pair_key = record { same = same_pair; same_iff = same_pair_iff }

instance abbrev pub pact_key : Key PactKey
pact_key = record { same = same_pact; same_iff = same_pact_iff }

-- The registry of one match. `version` is a uint64.
pub record Registry : Type 0 where
  pub treaties : GoMap PairKey Treaty
  pub pacts : GoMap PactKey Pact
  pub version : ℕ

unfoldable pub sorted_pair : Slot → Slot → PairKey
sorted_pair a b = if ltb b a then record { a = b; b = a } else record { a = a; b = b }
