-- ===== src/Review.antt =====
-- internal/transport/review.go: the limits and the stripping of what a review shows. Texts are
-- measured in Unicode scalars, Go's runes. The hashes are left out, and the two redactions by regular
-- expressions are parameters, as is JSON.
pub mod Shown
use outlook_agent.Prelude.{
  Bool, List, Option, String, [], if◌then◌else◌, leb, length, none, some, suc, take, zero, ℕ, ◌-◌,
  ◌||◌, ◌∷◌,
}
use outlook_agent.Prelude.Text.{contains_one, drop_letter, to_lower, trim_space}
use outlook_agent.Value.{
  Fields, Items, Value, array, bool, cons, end, field, maps, nil, null, number, object, strings,
  text,
}

-- TargetRef
pub record TargetRef : Type 0 where
  pub kind : String
  pub id : String
  pub name : String

-- DefaultReviewTargetLimit
abbrev pub default_review_target_limit : ℕ
default_review_target_limit = 50

-- ClampTargetRefs: the targets shown, and how many are left out
unfoldable pub clamp_target_refs : List TargetRef → ℕ → List TargetRef × ℕ
clamp_target_refs targets max =
    if leb max 0 || leb (length targets) max
    then (targets, 0)
    else (take max targets, length targets - max)

unfoldable pub take_runes : ℕ → String → String
take_runes zero s = ""
take_runes (suc n) String.[] = ""
take_runes (suc n) (String.◌∷◌ c s) = String.◌∷◌ c (take_runes n s)

-- TruncatedPreview
unfoldable pub truncated_preview : String → ℕ → String
unfolding take_runes
truncated_preview s max_runes = take_runes max_runes s

abbrev pub sensitive_review_parts : List String
sensitive_review_parts =
    "password" ∷ "token" ∷ "cookie" ∷ "canary" ∷ "secret" ∷ "body" ∷ "bodypreview" ∷ "content"
    ∷ "contentbytes" ∷ "htmlbody" ∷ "messagebody" ∷ "preview" ∷ "snippet" ∷ "textbody" ∷ "xmltext"
    ∷ []

unfoldable pub is_sensitive_review_key : String → Bool
is_sensitive_review_key key =
    contains_one sensitive_review_parts (to_lower (drop_letter 45 (drop_letter 95 key)))

-- stripSensitiveReviewFields: sensitive fields are left out at any depth
unfoldable mutual
  pub strip_sensitive_review_fields : Value → Value
  strip_sensitive_review_fields (object fs) = object (strip_fields fs)
  strip_sensitive_review_fields (array items) = array (strip_items items)
  strip_sensitive_review_fields (text s) = text s
  strip_sensitive_review_fields null = null
  strip_sensitive_review_fields (bool b) = bool b
  strip_sensitive_review_fields (number n) = number n
  strip_sensitive_review_fields (strings xs) = strings xs
  strip_sensitive_review_fields (maps items) = maps items

  pub strip_fields : Fields → Fields
  strip_fields end = end
  strip_fields (field key child rest) =
      if is_sensitive_review_key key
      then strip_fields rest
      else field key (strip_sensitive_review_fields child) (strip_fields rest)

  pub strip_items : Items → Items
  strip_items nil = nil
  strip_items (cons child rest) = cons (strip_sensitive_review_fields child) (strip_items rest)

pub record PreviewHost : Type 0 where
  -- json.Unmarshal
  pub decode : String → Option Value
  -- json.Marshal
  pub encode : Value → Option String
  -- redactSensitiveAssignments, redactSensitiveXMLTags
  pub redact_assignments : String → String
  pub redact_tags : String → String

module _ (h : PreviewHost) where
  abbrev encoded_or : String → Option String → String
  encoded_or preview none = preview
  encoded_or preview (some s) = s

  abbrev pub redacted : String → Option Value → String
  redacted preview none = h.redact_tags (h.redact_assignments preview)
  redacted preview (some v) = encoded_or preview (h.encode (strip_sensitive_review_fields v))

  -- RedactedPreview
  unfoldable pub redacted_preview : String → ℕ → String
  redacted_preview s max_runes =
      let preview = trim_space s in
      if leb max_runes 0
      then ""
      else truncated_preview (redacted preview (h.decode preview)) max_runes
