-- ===== src/Redact/Sound.antt =====
-- What redaction leaves in a value.
use outlook_agent.Prelude.{Bool, String, arith, false, if◌then◌else◌, refl, true, ◌≡◌}
use outlook_agent.Value.{Fields, Items, Value}
use outlook_agent.Redact.{fields, marker, should_redact_key, value, values}

-- A field with a sensitive key, at any depth, holds the marker, and every text satisfies `P`. A
-- typed `[]string` or `[]map[string]any` is not looked into.
abbrev mutual
  pub IsClean : (String → Type 0) → Value → Type 0
  IsClean P (Value.array items) = AreClean P items
  IsClean P (Value.object fs) = FieldsAreClean P fs
  IsClean P (Value.text s) = P s
  IsClean P v = Unit {0}

  pub AreClean : (String → Type 0) → Items → Type 0
  AreClean P Items.nil = Unit {0}
  AreClean P (Items.cons v rest) = IsClean P v × AreClean P rest

  pub FieldsAreClean : (String → Type 0) → Fields → Type 0
  FieldsAreClean P Fields.end = Unit {0}
  FieldsAreClean P (Fields.field k v rest) =
      (should_redact_key k ≡ true → v ≡ Value.text marker) × IsClean P v × FieldsAreClean P rest

module _ (P : String → Type 0) (redact_text : String → String)
    (holds : (s : String) → P (redact_text s)) (held : P marker) where
  masked :
      (b : Bool) (v : Value)
      → IsClean P v
      → (b ≡ true → (if b then Value.text marker else v) ≡ Value.text marker)
        × IsClean P (if b then Value.text marker else v)
  masked true v h = (λ e. refl, held)
  masked false v h = (λ e. ground arith, h)

  mutual
    unfolding value

    IsClean-value : (v : Value) → IsClean P (value redact_text v)
    IsClean-value Value.null = tt
    IsClean-value (Value.bool b) = tt
    IsClean-value (Value.number n) = tt
    IsClean-value (Value.text s) = holds s
    IsClean-value (Value.strings xs) = tt
    IsClean-value (Value.maps items) = tt
    IsClean-value (Value.array items) = AreClean-values items
    IsClean-value (Value.object fs) = FieldsAreClean-fields fs

    AreClean-values : (items : Items) → AreClean P (values redact_text items)
    AreClean-values Items.nil = tt
    AreClean-values (Items.cons v rest) = (IsClean-value v, AreClean-values rest)

    FieldsAreClean-fields : (fs : Fields) → FieldsAreClean P (fields redact_text fs)
    FieldsAreClean-fields Fields.end = tt
    FieldsAreClean-fields (Fields.field k v rest) =
        let m = masked (should_redact_key k) (value redact_text v) (IsClean-value v) in
        (m.0, m.1, FieldsAreClean-fields rest)

  -- After redaction every field with a sensitive key holds the marker, at any depth of maps and
  -- lists, and every other text is one that the replacement made: it satisfies whatever the
  -- replacement's results and the marker satisfy. Typed lists of strings or maps are left out.
  pub value-IsClean : (v : Value) → IsClean P (value redact_text v)
  value-IsClean v = IsClean-value v

  pub fields-AreClean : (fs : Fields) → FieldsAreClean P (fields redact_text fs)
  fields-AreClean fs = FieldsAreClean-fields fs
