-- ===== src/Review/Shown.antt =====
-- What stripSensitiveReviewFields and RedactedPreview leave to be seen.
use outlook_agent.Prelude.{
  Bool, Bool-cases, List, Option, String, [], ap, arith, eq→path, false, if◌then◌else◌, inl, inr,
  none, not, refl, some, suc, sym, true, zero, ℕ, ◌&&◌, ◌==◌, ◌∙◌, ◌∷◌, ◌≡◌,
}
use outlook_agent.Prelude.Text.{trim_space}
use outlook_agent.Value.{Fields, Items, Value, array, cons, end, field, lookup_field, nil, object}
use outlook_agent.Review.{
  PreviewHost, redacted_preview, truncated_preview, take_runes, redacted, is_sensitive_review_key,
  strip_fields, strip_items, strip_sensitive_review_fields,
}

-- A step into a value: to the field with a key, or to the element of a list.
pub data Step : Type 0 where
  key : String → Step
  index : ℕ → Step

abbrev item_at : ℕ → Items → Option Value
item_at n nil = none
item_at zero (cons v rest) = some v
item_at (suc n) (cons v rest) = item_at n rest

abbrev step_into : Step → Value → Option Value
step_into (key k) (object fs) = lookup_field k fs
step_into (index n) (array items) = item_at n items
step_into s v = none

-- the part of a value, if there is one, that the steps lead to
abbrev pub reach : List Step → Option Value → Option Value
reach [] o = o
reach (s ∷ path) none = none
reach (s ∷ path) (some v) = reach path (step_into s v)

abbrev is_shown_step : Step → Bool
is_shown_step (key k) = not (is_sensitive_review_key k)
is_shown_step (index n) = true

-- no step goes through a sensitive key
abbrev pub is_shown : List Step → Bool
is_shown [] = true
is_shown (s ∷ path) = is_shown_step s && is_shown path

abbrev pub stripped : Option Value → Option Value
stripped none = none
stripped (some v) = some (strip_sensitive_review_fields v)

abbrev pub only_if : Bool → Option Value → Option Value
only_if b o = if b then o else none

lookup_field-strip_fields :
    (k : String) (fs : Fields)
    → lookup_field k (strip_fields fs)
      ≡ only_if (not (is_sensitive_review_key k)) (stripped (lookup_field k fs))
unfolding lookup_field strip_sensitive_review_fields
lookup_field-strip_fields k end = ground arith
lookup_field-strip_fields k (field j v fs) =
    let rest = lookup_field-strip_fields k fs in
    elim (Bool-cases (j == k)) [
      | inl e ↦
          let same = ap is_sensitive_review_key (eq→path j k e) in
          elim (Bool-cases (is_sensitive_review_key j)) [
            | inl b ↦ rw (b, e, sym same ∙ b) (rest ∙ rw (sym same ∙ b) refl)
            | inr b ↦ rw (b, e, sym same ∙ b) refl
          ]
      | inr e ↦ elim (Bool-cases (is_sensitive_review_key j)) [
        | inl b ↦ rw (b, e) rest
        | inr b ↦ rw (b, e) rest
      ]
    ]

item_at-strip_items :
    (n : ℕ) (items : Items) → item_at n (strip_items items) ≡ stripped (item_at n items)
unfolding strip_sensitive_review_fields
item_at-strip_items n nil = refl
item_at-strip_items zero (cons v rest) = refl
item_at-strip_items (suc n) (cons v rest) = item_at-strip_items n rest

only_none : (b : Bool) → none ≡ only_if b none
only_none true = refl
only_none false = refl

step_into-strip :
    (s : Step) (v : Value)
    → step_into s (strip_sensitive_review_fields v)
      ≡ only_if (is_shown_step s) (stripped (step_into s v))
unfolding strip_sensitive_review_fields
step_into-strip (key k) (object fs) = lookup_field-strip_fields k fs
step_into-strip (index n) (array items) = item_at-strip_items n items
step_into-strip s v = only_none (is_shown_step s)

reach-none : (path : List Step) → reach path none ≡ none
reach-none [] = refl
reach-none (s ∷ path) = refl

reach-stripped :
    (path : List Step) (o : Option Value)
    → reach path (stripped o) ≡ only_if (is_shown path) (stripped (reach path o))
reach-stripped [] o = refl
reach-stripped (s ∷ path) none = only_none (is_shown (s ∷ path))
reach-stripped (s ∷ path) (some v) = elim (Bool-cases (is_shown_step s)) [
  | inl b ↦ rw (step_into-strip s v, b) (reach-stripped path (step_into s v))
  | inr b ↦ rw (step_into-strip s v, b) (reach-none path)
]

redacted_preview-of_redacted :
    (h : PreviewHost) (s t : String) (n : ℕ)
    → redacted h (trim_space s) (h.decode (trim_space s)) ≡ t
    → redacted_preview h s n ≡ truncated_preview t n
unfolding redacted_preview truncated_preview take_runes
redacted_preview-of_redacted h s t zero e = refl
redacted_preview-of_redacted h s t (suc n) e = ground (arith, e)

-- Of a text that is JSON, the preview is the start, of the length asked for, of a JSON text that has
-- the same value at every path as the original, stripped itself, where no key on the path is
-- sensitive, and nothing at the other paths. This holds where the stripped value can be encoded and
-- its encoding decodes to it.
pub redacted_preview_shows :
    (h : PreviewHost) (s t : String) (n : ℕ) (v : Value)
    → h.decode (trim_space s) ≡ some v
    → h.encode (strip_sensitive_review_fields v) ≡ some t
    → h.decode t ≡ some (strip_sensitive_review_fields v)
    → (redacted_preview h s n ≡ truncated_preview t n)
      × ((path : List Step)
          → reach path (h.decode t)
            ≡ only_if (is_shown path) (stripped (reach path (h.decode (trim_space s)))))
redacted_preview_shows h s t n v decodes encodes again = (
  redacted_preview-of_redacted h s t n (rw (decodes, encodes) refl),
  λ path. rw (again, decodes) (reach-stripped path (some v)),
)
