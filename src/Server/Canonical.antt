-- ===== src/Server/Canonical.antt =====
-- canonicalActionPayload: the payload that a dry run reviews and a confirmation binds. The string in
-- the result is the reason of a rejection, empty if there is none.
use outlook_agent.Prelude.{
  Bool, List, Option, String, [], false, if◌then◌else◌, none, not, some, true, ◌&&◌, ◌==◌, ◌∷◌,
}
use outlook_agent.Prelude.Text.{is_blank, trim_space}
use outlook_agent.Value.{
  Fields, Items, Value, array, as_text, cons, delete_field, get_field, lookup_field, nil, set_field,
  strings, text,
}

abbrev pub has_field : String → Fields → Bool
has_field k fs = elim (lookup_field k fs) [ none ↦ false | some v ↦ true ]

abbrev pub text_at : String → Fields → String
text_at k fs = trim_space (as_text (get_field k fs))

-- a text field is trimmed, and dropped where nothing is left
unfoldable pub trim_field : String → Fields → Fields
trim_field k fs =
    let trimmed = text_at k fs in
    if trimmed == "" then delete_field k fs else set_field k (text trimmed) fs

unfoldable pub trim_fields : List String → Fields → Fields
unfolding trim_field
trim_fields [] fs = fs
trim_fields (k ∷ keys) fs = trim_fields keys (trim_field k fs)

-- nonEmptyStrings
unfoldable pub non_empty_strings : List String → List String
non_empty_strings [] = []
non_empty_strings (s ∷ rest) =
    let kept = non_empty_strings rest in if trim_space s == "" then kept else trim_space s ∷ kept

abbrev non_empty_item : Value → List String → List String
non_empty_item (text s) kept = if trim_space s == "" then kept else trim_space s ∷ kept
non_empty_item v kept = kept

non_empty_items : Items → List String
non_empty_items nil = []
non_empty_items (cons v rest) = non_empty_item v (non_empty_items rest)

unfoldable pub non_empty_string_values : Value → List String
unfolding non_empty_strings non_empty_items
non_empty_string_values (strings xs) = non_empty_strings xs
non_empty_string_values (array items) = non_empty_items items
non_empty_string_values v = []

abbrev move_timezone : Fields → Fields
move_timezone fs =
    if not (has_field "timezone" fs)
    then fs
    else (let timezone = text_at "timezone" fs in
        delete_field "timezone" (
          if not (timezone == "") && is_blank (as_text (get_field "time_zone" fs))
          then set_field "time_zone" (text timezone) fs
          else fs))

abbrev clean_attendees : Fields → Fields
clean_attendees fs = elim (lookup_field "attendees" fs) [
  | none ↦ fs
  | some v ↦ set_field "attendees" (strings (non_empty_string_values v)) fs
]

unfoldable pub canonical_create_meeting : Fields → Fields × String
unfolding trim_fields non_empty_string_values
canonical_create_meeting payload =
    if has_field "is_online_meeting" payload
    then (payload, "is_online_meeting is not supported for calendar.create_meeting")
    else if has_field "reminder_minutes" payload
    then (payload, "reminder_minutes is not supported for calendar.create_meeting")
    else (
      clean_attendees (
          trim_fields
            ("subject" ∷ "start" ∷ "end" ∷ "mailbox" ∷ "time_zone" ∷ "body" ∷ "location" ∷ [])
            (move_timezone payload)),
      "",
    )

abbrev comment_rejected : Option Value → Bool
comment_rejected none = false
comment_rejected (some (text s)) = not (trim_space s == "")
comment_rejected (some v) = true

unfoldable pub has_unsupported_comment : Fields → Bool
has_unsupported_comment payload = comment_rejected (lookup_field "comment" payload)

abbrev event_fields : Bool → Fields → Fields × String
event_fields include_comment fs =
    if include_comment
    then (trim_field "comment" fs, "")
    else if has_unsupported_comment fs
    then (fs, "comment is not supported for calendar.delete_event")
    else (delete_field "comment" fs, "")

unfoldable pub canonical_event_mutation : Fields → Bool → Fields × String
unfolding trim_fields has_unsupported_comment
canonical_event_mutation payload include_comment =
    let event_id = text_at "event_id" payload in
    if event_id == ""
    then (payload, "event_id required")
    else event_fields include_comment
        (trim_fields ("change_key" ∷ "mailbox" ∷ []) (set_field "event_id" (text event_id) payload))

unfoldable pub canonical_action_payload : String → Fields → Fields × String
unfolding canonical_create_meeting canonical_event_mutation
canonical_action_payload action payload =
    if action == "calendar.create_meeting"
    then canonical_create_meeting payload
    else if action == "calendar.delete_event"
    then canonical_event_mutation payload false
    else if action == "calendar.cancel_meeting"
    then canonical_event_mutation payload true
    else (payload, "")

unfoldable pub action_preflight_rejection : String → String
action_preflight_rejection action =
    if action == "mail.search_next"
    then "mail.search_next requires an opaque cursor; use outlook.mail_search_next"
    else if action == "mail.fetch_bodies"
    then "mail.fetch_bodies is an MCP-only typed helper; use outlook.mail_fetch_bodies"
    else ""
