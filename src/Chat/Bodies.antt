-- ===== src/Chat/Bodies.antt =====
-- What `ValidateBody` of internal/domain/chatdom/chatdom.go lets pass.
use rts_vibe_code.Prelude.{
  ◌≤◌, ◌≡◌, refl, sym, ap, ◌∙◌, Bool, false, ◌&&◌, [], ◌∷◌, arith, Bool-cases, inl, inr,
}
use rts_vibe_code.Chat.{
  Text, max_body_bytes, is_space, is_empty, trim_left, trim_right, trim_space, byte_length,
  has_control, valid, checked, validate_body,
}

trim_right-trim_right : (s : Text) → trim_right (trim_right s) ≡ trim_right s
unfolding trim_right
trim_right-trim_right [] = refl
trim_right-trim_right (c ∷ s) = elim (Bool-cases (is_empty (trim_right s) && is_space c)) [
  | inl gone ↦ rw gone refl
  | inr stays ↦ rw stays (rw (trim_right-trim_right s, stays) refl)
]

-- A text that does not begin with a space is the same without its spaces on the left.
abbrev begins_with_space : Text → Bool
begins_with_space [] = false
begins_with_space (c ∷ s) = is_space c

trim_left-same : (s : Text) → begins_with_space s ≡ false → trim_left s ≡ s
unfolding trim_left
trim_left-same [] h = refl
trim_left-same (c ∷ s) h = rw h refl

begins-trim_left : (s : Text) → begins_with_space (trim_left s) ≡ false
unfolding trim_left
begins-trim_left [] = refl
begins-trim_left (c ∷ s) = elim (Bool-cases (is_space c)) [
  | inl space ↦ rw space (begins-trim_left s)
  | inr other ↦ rw other other
]

begins-trim_right :
    (s : Text) → begins_with_space s ≡ false → begins_with_space (trim_right s) ≡ false
unfolding trim_right
begins-trim_right [] h = refl
begins-trim_right (c ∷ s) h = elim (Bool-cases (is_empty (trim_right s) && is_space c)) [
  | inl gone ↦ rw gone refl
  | inr stays ↦ rw stays h
]

trim_space-trim_space : (s : Text) → trim_space (trim_space s) ≡ trim_space s
unfolding trim_space
trim_space-trim_space s =
    ap trim_right (
      trim_left-same (trim_right (trim_left s))
        (begins-trim_right (trim_left s) (begins-trim_left s)))
    ∙ trim_right-trim_right (trim_left s)

checked-valid :
    (t body : Text)
    → checked t ≡ valid body
    → (body ≡ t) × (is_empty t ≡ false) × (byte_length t ≤ max_body_bytes) × (has_control t ≡ false)
checked-valid t body e =
    (ground (arith, e), ground (arith, e), ground (arith, e), ground (arith, e))

-- A text that passes is the given one without its spaces at both ends. It is not empty, is at most 1024 bytes long,
-- has no control character but newlines and tabs, and passes again as it is.
pub validate_body-valid :
    (raw body : Text)
    → validate_body raw ≡ valid body
    → (body ≡ trim_space raw)
      × (is_empty body ≡ false)
      × (byte_length body ≤ max_body_bytes)
      × (has_control body ≡ false)
      × (validate_body body ≡ valid body)
unfolding validate_body
validate_body-valid raw body e =
    let (same, some_left, short, clear) = checked-valid (trim_space raw) body e in
    let again : trim_space body ≡ body =
      ap trim_space same ∙ trim_space-trim_space raw ∙ sym same in
    (same, rw same some_left, rw same short, rw same clear, ap checked (again ∙ same) ∙ e)
