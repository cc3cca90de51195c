-- ===== src/Redact.antt =====
-- internal/redact/redact.go. The replacement of sensitive query values by a regular expression,
-- redact.String, is the parameter `text`. The order of a map's fields is kept.
pub mod Sound
use outlook_agent.Prelude.{Bool, List, String, [], if◌then◌else◌, ◌||◌, ◌∷◌}
use outlook_agent.Prelude.Text.{contains_one, is_one_of, to_lower}
use outlook_agent.Value.{Fields, Items, Value}

abbrev pub marker : String
marker = "[REDACTED]"

abbrev pub sensitive_key_parts : List String
sensitive_key_parts = "password" ∷ "token" ∷ "cookie" ∷ "canary" ∷ "secret" ∷ []

abbrev pub private_content_keys : List String
private_content_keys =
    "body" ∷ "body_text" ∷ "bodypreview" ∷ "content" ∷ "contentbytes" ∷ "content_bytes"
    ∷ "content_base64" ∷ "htmlbody" ∷ "messagebody" ∷ "preview" ∷ "snippet" ∷ "textbody"
    ∷ "text_body" ∷ "xml_text" ∷ []

unfoldable pub should_redact_key : String → Bool
unfolding to_lower contains_one
should_redact_key key =
    contains_one sensitive_key_parts (to_lower key) || is_one_of private_content_keys (to_lower key)

-- redact.Value; a typed `[]string` or `[]map[string]any` is returned as it is
module _ (redact_text : String → String) where
  unfoldable mutual
    pub value : Value → Value
    value Value.null = Value.null
    value (Value.bool b) = Value.bool b
    value (Value.number n) = Value.number n
    value (Value.text s) = Value.text (redact_text s)
    value (Value.strings xs) = Value.strings xs
    value (Value.maps items) = Value.maps items
    value (Value.array items) = Value.array (values items)
    value (Value.object fs) = Value.object (fields fs)

    pub values : Items → Items
    values Items.nil = Items.nil
    values (Items.cons v rest) = Items.cons (value v) (values rest)

    pub fields : Fields → Fields
    fields Fields.end = Fields.end
    fields (Fields.field k v rest) =
        Fields.field k (if should_redact_key k then Value.text marker else value v) (fields rest)
