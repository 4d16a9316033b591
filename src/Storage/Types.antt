-- ===== src/Storage/Types.antt =====
-- The types of attachments in backend/app/services/storage.py: `validate_file_type` with what it uses
-- of Python's texts and `pathlib`. A letter outside ASCII whose lower case is compared with these ASCII
-- texts never matches, so lower case is taken of ASCII letters.
use home_trap.Prelude.{
  ℕ, ◌+◌, ◌&&◌, ◌||◌, Option, none, some, List, [], ◌∷◌, map, Text, text, text_eq, leb, ◌==◌, any,
  if◌then◌else◌,
}
use home_trap.Prelude.Result.{Result, ok, err}
use home_trap.Billing.Adjustments.Strip.{strip}

abbrev pub lower : Text → Text
lower s = map (λ c. if leb b'A' c && leb c b'Z' then c + 32 else c) s

-- `s.partition(c)[0]`
unfoldable pub before_char : ℕ → Text → Text
before_char c [] = []
before_char c (x ∷ xs) = let rest = before_char c xs in if x == c then [] else x ∷ rest

-- `s.split(c)`
abbrev join_first : ℕ → List Text → List Text
join_first x [] = (x ∷ []) ∷ []
join_first x (part ∷ parts) = (x ∷ part) ∷ parts

unfoldable pub split_on : ℕ → Text → List Text
split_on c [] = [] ∷ []
split_on c (x ∷ xs) = let rest = split_on c xs in if x == c then [] ∷ rest else join_first x rest

-- `Path(s).name`: the last component that is neither empty nor a dot.
unfoldable pub last_part : Text → List Text → Text
last_part found [] = found
last_part found (part ∷ parts) =
    last_part (if text_eq part [] || text_eq part (text ".") then found else part) parts

unfoldable pub path_name : Text → Text
unfolding split_on last_part
path_name s = last_part [] (split_on b'/' s)

-- The text from its last dot on, and what stands before it; none without a dot.
unfoldable pub last_dot : Text → Option (Text × Text)
last_dot [] = none
last_dot (x ∷ xs) = elim (last_dot xs) [
  | some (before, after) ↦ some (x ∷ before, after)
  | none ↦ if x == b'.' then some ([], xs) else none
]

-- `Path(s).suffix`: not where the dot begins or ends the name.
abbrev suffix_of : Option (Text × Text) → Text
suffix_of none = []
suffix_of (some ([], after)) = []
suffix_of (some (c ∷ before, [])) = []
suffix_of (some (c ∷ before, d ∷ after)) = b'.' ∷ d ∷ after

unfoldable pub suffix : Text → Text
unfolding path_name last_dot
suffix s = suffix_of (last_dot (path_name s))

-- `ATTACHMENT_TYPES`: the content type, the suffix of stored names, and the suffixes allowed.
pub record AttachmentType : Type 0 where
  pub content_type : Text
  pub stored_suffix : Text
  pub suffixes : List Text

abbrev pub attachment_types : List AttachmentType
attachment_types =
    record {
      content_type = text "image/jpeg";
      stored_suffix = text ".jpg";
      suffixes = text ".jpg" ∷ text ".jpeg" ∷ [];
    }
    ∷ record {
      content_type = text "image/png";
      stored_suffix = text ".png";
      suffixes = text ".png" ∷ [];
    }
    ∷ record {
      content_type = text "image/webp";
      stored_suffix = text ".webp";
      suffixes = text ".webp" ∷ [];
    }
    ∷ record {
      content_type = text "application/pdf";
      stored_suffix = text ".pdf";
      suffixes = text ".pdf" ∷ [];
    }
    ∷ []

abbrev pub or_blank : Option Text → Text
or_blank none = []
or_blank (some s) = s

unfoldable pub normalize_content_type : Option Text → Text
unfolding before_char
normalize_content_type content_type = lower (strip (before_char b';' (or_blank content_type)))

-- `ATTACHMENT_TYPES.get(normalized_type)`
unfoldable pub attachment_type : Text → List AttachmentType → Option AttachmentType
attachment_type content_type [] = none
attachment_type content_type (t ∷ ts) =
    let later = attachment_type content_type ts in
    if text_eq t.content_type content_type then some t else later

pub data UnsupportedType : Type 0 where
  unsupported_attachment_type : UnsupportedType

unfoldable pub validate_file_type : Text → Option Text → Result UnsupportedType Text
unfolding normalize_content_type attachment_type suffix
validate_file_type original_name content_type =
    let normalized_type = normalize_content_type content_type in
    elim (attachment_type normalized_type attachment_types) [
      | none ↦ err UnsupportedType.unsupported_attachment_type
      | some t ↦
          if any (text_eq (lower (suffix original_name))) t.suffixes
          then ok normalized_type
          else err UnsupportedType.unsupported_attachment_type
    ]
