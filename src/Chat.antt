-- ===== src/Chat.antt =====
-- internal/domain/chatdom/chatdom.go: the scopes and the bodies of chat messages. A text is the list of its runes, as of
-- valid UTF-8; the text of a uuid (`uuid.UUID.String`) is a parameter, the uuid itself a number.
pub mod Scopes
pub mod Bodies
pub mod Throttle
pub mod Service
use rts_vibe_code.Prelude.{
  ℕ, zero, suc, ◌+◌, Bool, true, false, not, ◌&&◌, ◌||◌, Option, none, some, List, [], ◌∷◌, ◌++◌,
  ◌==◌, if◌then◌else◌, ltb, leb,
}

abbrev pub Text : Type 0
Text = List ℕ

pub data ChannelKind : Type 0 where
  world coalition dm : ChannelKind

pub data ChatErr : Type 0 where
  empty_body body_too_long control_chars unknown_scope : ChatErr

abbrev pub max_body_bytes : ℕ
max_body_bytes = 1024

-- ':'
abbrev pub colon : ℕ
colon = 58

abbrev pub world_prefix : Text
world_prefix = 119 ∷ 111 ∷ 114 ∷ 108 ∷ 100 ∷ []

abbrev pub coalition_prefix : Text
coalition_prefix = 99 ∷ 111 ∷ 97 ∷ 108 ∷ []

abbrev pub dm_prefix : Text
dm_prefix = 100 ∷ 109 ∷ []

abbrev pub same_runes : Text → Text → Bool
same_runes [] [] = true
same_runes (a ∷ s) (b ∷ t) = a == b && same_runes s t
same_runes _ _ = false

-- `a <= b` on texts: the order of the bytes of UTF-8 is that of the runes.
abbrev pub text_leb : Text → Text → Bool
text_leb [] t = true
text_leb (a ∷ s) [] = false
text_leb (a ∷ s) (b ∷ t) = ltb a b || (a == b && text_leb s t)

module _ (uuid_text : ℕ → Text) where
  unfoldable pub world_scope : ℕ → Text
  world_scope match_id = world_prefix ++ colon ∷ uuid_text match_id

  unfoldable pub coalition_scope : ℕ → Text → Text
  coalition_scope match_id coalition_id =
      coalition_prefix ++ colon ∷ (uuid_text match_id ++ colon ∷ coalition_id)

  abbrev pub dm_of : ℕ → Text → Text → Text
  dm_of match_id x y = dm_prefix ++ colon ∷ (uuid_text match_id ++ colon ∷ (x ++ colon ∷ y))

  -- The two users, in the order of their texts.
  unfoldable pub dm_scope : ℕ → ℕ → ℕ → Text
  dm_scope match_id a b =
      if text_leb (uuid_text a) (uuid_text b)
      then dm_of match_id (uuid_text a) (uuid_text b)
      else dm_of match_id (uuid_text b) (uuid_text a)

-- `strings.Split(s, ":")`
abbrev pub onto_first : ℕ → List Text → List Text
onto_first c [] = (c ∷ []) ∷ []
onto_first c (p ∷ ps) = (c ∷ p) ∷ ps

unfoldable pub split : Text → List Text
split [] = [] ∷ []
split (c ∷ s) = let parts = split s in if c == colon then [] ∷ parts else onto_first c parts

abbrev pub has_parts : ℕ → List Text → Bool
has_parts zero [] = true
has_parts zero (p ∷ ps) = false
has_parts (suc n) [] = false
has_parts (suc n) (p ∷ ps) = has_parts n ps

abbrev pub kind_of : Text → List Text → Option (ChannelKind × List Text)
kind_of kind parts =
    if same_runes kind world_prefix
    then (if has_parts 1 parts then some (world, parts) else none)
    else if same_runes kind coalition_prefix
    then (if has_parts 2 parts then some (coalition, parts) else none)
    else if same_runes kind dm_prefix
    then (if has_parts 3 parts then some (dm, parts) else none)
    else none

abbrev pub parse_parts : List Text → Option (ChannelKind × List Text)
parse_parts (kind ∷ p ∷ ps) = kind_of kind (p ∷ ps)
parse_parts _ = none

-- `none` is the unknown scope.
unfoldable pub parse_scope : Text → Option (ChannelKind × List Text)
unfolding split
parse_scope s = parse_parts (split s)

-- unicode.IsSpace
abbrev pub is_space : ℕ → Bool
is_space c =
    (leb 9 c && leb c 13)
    || (c == 32
        || (c == 133
            || (c == 160
                || (c == 5760
                    || ((leb 8192 c && leb c 8202)
                        || (c == 8232
                            || (c == 8233 || (c == 8239 || (c == 8287 || c == 12288)))))))))

-- unicode.IsControl
abbrev pub is_control : ℕ → Bool
is_control c = ltb c 32 || (leb 127 c && ltb c 160)

-- strings.TrimSpace
unfoldable pub trim_left : Text → Text
trim_left [] = []
trim_left (c ∷ s) = if is_space c then trim_left s else c ∷ s

abbrev pub is_empty : Text → Bool
is_empty [] = true
is_empty (c ∷ s) = false

unfoldable pub trim_right : Text → Text
trim_right [] = []
trim_right (c ∷ s) = let t = trim_right s in if is_empty t && is_space c then [] else c ∷ t

unfoldable pub trim_space : Text → Text
unfolding trim_left trim_right
trim_space s = trim_right (trim_left s)

-- `len` of a text: the bytes of its runes.
abbrev pub rune_bytes : ℕ → ℕ
rune_bytes c = if ltb c 128 then 1 else if ltb c 2048 then 2 else if ltb c 65536 then 3 else 4

unfoldable pub byte_length : Text → ℕ
byte_length [] = 0
byte_length (c ∷ s) = rune_bytes c + byte_length s

-- Whether the loop over the runes finds a control character but a newline or a tab.
unfoldable pub has_control : Text → Bool
has_control [] = false
has_control (c ∷ s) = is_control c && (not (c == 10) && not (c == 9)) || has_control s

pub data Body : Type 0 where
  invalid : ChatErr → Body
  valid : Text → Body

abbrev pub checked : Text → Body
checked body =
    if is_empty body
    then invalid empty_body
    else if ltb max_body_bytes (byte_length body)
    then invalid body_too_long
    else if has_control body
    then invalid control_chars
    else valid body

unfoldable pub validate_body : Text → Body
unfolding trim_space byte_length has_control
validate_body raw = checked (trim_space raw)
