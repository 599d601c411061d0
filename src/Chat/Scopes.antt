-- ===== src/Chat/Scopes.antt =====
-- The keys of the scopes of internal/domain/chatdom/chatdom.go are read back as they were made.
use rts_vibe_code.Prelude.{
  ℕ, ◌≡◌, refl, ap, ◌∙◌, true, false, some, List, [], ◌∷◌, ◌++◌, ◌==◌, if◌then◌else◌, arith,
  contains, Bool-cases, inl, inr, ◌⊎◌, ◌↔◌,
}
use rts_vibe_code.Chat.{
  Text, world, coalition, dm, colon, world_prefix, coalition_prefix, dm_prefix, text_leb,
  world_scope, coalition_scope, dm_of, dm_scope, split, parse_parts, parse_scope,
}

split-first :
    (part rest : Text)
    → contains colon part ≡ false
    → split (part ++ colon ∷ rest) ≡ part ∷ split rest
unfolding split
split-first [] rest clear = refl
split-first (c ∷ part) rest clear =
    let apart : (c == colon) ≡ false = ground (arith, clear) in
    rw (split-first part rest (ground (arith, clear)), apart) refl

split-last : (part : Text) → contains colon part ≡ false → split part ≡ part ∷ []
unfolding split
split-last [] clear = refl
split-last (c ∷ part) clear =
    let apart : (c == colon) ≡ false = ground (arith, clear) in
    rw (split-last part (ground (arith, clear)), apart) refl

text_leb_antisym : (s t : Text) → text_leb s t ≡ true → text_leb t s ≡ true → s ≡ t
text_leb_antisym [] [] h k = refl
text_leb_antisym [] (b ∷ t) h k = absurd (cc (k))
text_leb_antisym (a ∷ s) [] h k = absurd (cc (h))
text_leb_antisym (a ∷ s) (b ∷ t) h k =
    let same : a ≡ b = ground (arith, h, k) in
    let tails = text_leb_antisym s t (ground (arith, h, same)) (ground (arith, k, same)) in
    cc (same, tails)

text_leb_total : (s t : Text) → text_leb s t ≡ false → text_leb t s ≡ true
text_leb_total [] t h = absurd (cc (h))
text_leb_total (a ∷ s) [] h = refl
text_leb_total (a ∷ s) (b ∷ t) h = grind (arith, h, text_leb_total s t)

module _ (uuid_text : ℕ → Text) (clear : (id : ℕ) → contains colon (uuid_text id) ≡ false) where
  split-dm_of :
      (match_id : ℕ) (x y : Text)
      → contains colon x ≡ false
      → contains colon y ≡ false
      → split (dm_of uuid_text match_id x y) ≡ dm_prefix ∷ uuid_text match_id ∷ x ∷ y ∷ []
  split-dm_of match_id x y cx cy =
      split-first dm_prefix (uuid_text match_id ++ colon ∷ (x ++ colon ∷ y)) refl
      ∙ ap (λ parts. dm_prefix ∷ parts)
          (split-first (uuid_text match_id) (x ++ colon ∷ y) (clear match_id)
            ∙ ap (λ parts. uuid_text match_id ∷ parts)
                (split-first x y cx ∙ ap (λ parts. x ∷ parts) (split-last y cy)))

  split-coalition_scope :
      (match_id : ℕ) (coalition_id : Text)
      → contains colon coalition_id ≡ false
      → split (coalition_scope uuid_text match_id coalition_id)
        ≡ coalition_prefix ∷ uuid_text match_id ∷ coalition_id ∷ []
  unfolding coalition_scope
  split-coalition_scope match_id coalition_id c =
      split-first coalition_prefix (uuid_text match_id ++ colon ∷ coalition_id) refl
      ∙ ap (λ parts. coalition_prefix ∷ parts)
          (split-first (uuid_text match_id) coalition_id (clear match_id)
            ∙ ap (λ parts. uuid_text match_id ∷ parts) (split-last coalition_id c))

  split-world_scope :
      (match_id : ℕ)
      → split (world_scope uuid_text match_id) ≡ world_prefix ∷ uuid_text match_id ∷ []
  unfolding world_scope
  split-world_scope match_id =
      split-first world_prefix (uuid_text match_id) refl
      ∙ ap (λ parts. world_prefix ∷ parts) (split-last (uuid_text match_id) (clear match_id))

  parse-parse_parts :
      (s : Text) (parts : List Text) → split s ≡ parts → parse_scope s ≡ parse_parts parts
  unfolding parse_scope
  parse-parse_parts s parts e = ap parse_parts e

  -- A scope that is made from ids whose texts have no colon is read back as its kind and its parts: the
  -- match, the match and a coalition id without a colon, or the match and the two users in the order of
  -- their texts, whichever of them comes first.
  pub parse-scopes :
      (match_id a b : ℕ) (coalition_id : Text)
      → contains colon coalition_id ≡ false
      → (parse_scope (world_scope uuid_text match_id) ≡ some (world, uuid_text match_id ∷ []))
        × (parse_scope (coalition_scope uuid_text match_id coalition_id)
            ≡ some (coalition, uuid_text match_id ∷ coalition_id ∷ []))
        × (parse_scope (dm_scope uuid_text match_id a b)
            ≡ some (
              dm,
              (if text_leb (uuid_text a) (uuid_text b)
                  then uuid_text match_id ∷ uuid_text a ∷ uuid_text b ∷ []
                  else uuid_text match_id ∷ uuid_text b ∷ uuid_text a ∷ []),
            ))
  unfolding dm_scope
  parse-scopes match_id a b coalition_id c = (
    parse-parse_parts (world_scope uuid_text match_id) _ (split-world_scope match_id),
    parse-parse_parts (coalition_scope uuid_text match_id coalition_id) _
        (split-coalition_scope match_id coalition_id c),
    elim (Bool-cases (text_leb (uuid_text a) (uuid_text b))) [
      | inl first ↦ rw (first) (
          parse-parse_parts (dm_of uuid_text match_id (uuid_text a) (uuid_text b)) _
            (split-dm_of match_id (uuid_text a) (uuid_text b) (clear a) (clear b)))
      | inr second ↦ rw (second) (
          parse-parse_parts (dm_of uuid_text match_id (uuid_text b) (uuid_text a)) _
            (split-dm_of match_id (uuid_text b) (uuid_text a) (clear b) (clear a)))
    ],
  )

dm_scope_comm :
    (uuid_text : ℕ → Text) (match_id a b : ℕ)
    → dm_scope uuid_text match_id a b ≡ dm_scope uuid_text match_id b a
unfolding dm_scope
dm_scope_comm uuid_text match_id a b = elim (Bool-cases (text_leb (uuid_text a) (uuid_text b))) [
  | inl ab ↦ elim (Bool-cases (text_leb (uuid_text b) (uuid_text a))) [
    | inl ba ↦
        rw (ab, ba)
          (ap (λ (x, y). dm_of uuid_text match_id x y)
            (let same = text_leb_antisym (uuid_text a) (uuid_text b) ab ba in cc (same)))
    | inr not_ba ↦ rw (ab, not_ba) refl
  ]
  | inr not_ab ↦ rw (not_ab, text_leb_total (uuid_text a) (uuid_text b) not_ab) refl
]

-- The parts of the scope of two users, in one of the two orders.
split-dm_scope :
    (uuid_text : ℕ → Text)
    → ((id : ℕ) → contains colon (uuid_text id) ≡ false)
    → (match_id a b : ℕ)
    → (split (dm_scope uuid_text match_id a b)
        ≡ dm_prefix ∷ uuid_text match_id ∷ uuid_text a ∷ uuid_text b ∷ [])
      ⊎ (split (dm_scope uuid_text match_id a b)
          ≡ dm_prefix ∷ uuid_text match_id ∷ uuid_text b ∷ uuid_text a ∷ [])
unfolding dm_scope
split-dm_scope uuid_text clear match_id a b =
    elim (Bool-cases (text_leb (uuid_text a) (uuid_text b))) [
      | inl first ↦ inl (
          rw (first)
            (split-dm_of uuid_text clear match_id (uuid_text a) (uuid_text b) (clear a) (clear b)))
      | inr second ↦ inr (
          rw (second)
            (split-dm_of uuid_text clear match_id (uuid_text b) (uuid_text a) (clear b) (clear a)))
    ]

-- Three texts that are the parts of one scope twice.
parts_same :
    (s : Text) (m x y m' x' y' : Text)
    → split s ≡ dm_prefix ∷ m ∷ x ∷ y ∷ []
    → split s ≡ dm_prefix ∷ m' ∷ x' ∷ y' ∷ []
    → (m ≡ m') × (x ≡ x') × (y ≡ y')
parts_same s m x y m' x' y' e e' = (cc (e, e'), cc (e, e'), cc (e, e'))

-- Two pairs of users have the same scope only if they are the same two users, in whichever order, of the same
-- match, where a uuid is known by its text, in which there is no colon.
pub dm_scope_same :
    (uuid_text : ℕ → Text)
    → ((id : ℕ) → contains colon (uuid_text id) ≡ false)
    → ((i j : ℕ) → uuid_text i ≡ uuid_text j → i ≡ j)
    → (match_id a b match_id' a' b' : ℕ)
    → (dm_scope uuid_text match_id a b ≡ dm_scope uuid_text match_id' a' b')
      ↔ (match_id ≡ match_id') × (((a ≡ a') × (b ≡ b')) ⊎ ((a ≡ b') × (b ≡ a')))
dm_scope_same uuid_text clear known match_id a b match_id' a' b' = (
  λ same.
      let s = dm_scope uuid_text match_id a b in
      let theirs = split-dm_scope uuid_text clear match_id' a' b' in
      elim (split-dm_scope uuid_text clear match_id a b) [
        | inl e ↦ elim theirs [
          | inl e' ↦
              let (m, x, y) = parts_same s _ _ _ _ _ _ e (ap split same ∙ e') in
              (known match_id match_id' m, inl (known a a' x, known b b' y))
          | inr e' ↦
              let (m, x, y) = parts_same s _ _ _ _ _ _ e (ap split same ∙ e') in
              (known match_id match_id' m, inr (known a b' x, known b a' y))
        ]
        | inr e ↦ elim theirs [
          | inl e' ↦
              let (m, y, x) = parts_same s _ _ _ _ _ _ e (ap split same ∙ e') in
              (known match_id match_id' m, inr (known a b' x, known b a' y))
          | inr e' ↦
              let (m, y, x) = parts_same s _ _ _ _ _ _ e (ap split same ∙ e') in
              (known match_id match_id' m, inl (known a a' x, known b b' y))
        ]
      ],
  λ (m, ab). elim ab [
    | inl (x, y) ↦ rw (m, x, y) refl
    | inr (x, y) ↦ rw (m, x, y) (dm_scope_comm uuid_text match_id' b' a')
  ],
)
