-- ===== src/Graph/Payload.antt =====
-- The helpers of internal/transport/graph/transport.go that read a payload.
use outlook_agent.Prelude.{
  Bool, List, Option, String, [], if◌then◌else◌, nat_eq, none, some, ℕ, ◌==◌, ◌||◌, ◌∷◌,
}
use outlook_agent.Prelude.Text.{drop_letter, is_one_of, to_lower, trim_space}
use outlook_agent.Value.{
  Fields, Items, Value, array, as_text, bool, cons, get_field, lookup_field, nil, strings, text,
}
use outlook_agent.Policy.{SafetyClass, reversible_bulk, reversible_single_item}

-- stringValue
unfoldable pub string_value : Fields → String → String → String
string_value values key fallback =
    let value = as_text (get_field key values) in if value == "" then fallback else value

abbrev as_bool : Option Value → Option Bool
as_bool (some (bool b)) = some b
as_bool o = none

-- boolValue; `none` where its second result is false
unfoldable pub bool_value : Fields → String → Option Bool
bool_value values key = as_bool (lookup_field key values)

abbrev pub add_text : Value → List String → List String
add_text (text s) rest = s ∷ rest
add_text v rest = rest

unfoldable pub texts_of : Items → List String
texts_of nil = []
texts_of (cons v items) = add_text v (texts_of items)

-- stringSlice
unfoldable pub string_slice : Value → List String
unfolding texts_of
string_slice (strings xs) = xs
string_slice (array items) = texts_of items
string_slice v = []

abbrev id_or_none : String → List String
id_or_none id = if id == "" then [] else id ∷ []

abbrev pub single_id : Fields → List String
single_id payload =
    let id = trim_space (string_value payload "id" "") in
    if id == "" then id_or_none (trim_space (string_value payload "message_id" "")) else id ∷ []

abbrev pub ids_or_single : Fields → List String → List String
ids_or_single payload [] = single_id payload
ids_or_single payload (id ∷ ids) = id ∷ ids

-- messageIDs
unfoldable pub message_ids : Fields → List String
unfolding string_slice string_value
message_ids payload = ids_or_single payload (string_slice (get_field "ids" payload))

-- normalizeGraphFlagStatus; `none` is its error
unfoldable pub normalize_flag_status : String → Option String
normalize_flag_status value =
    let normalized = to_lower (trim_space (drop_letter 45 (drop_letter 95 value))) in
    if normalized == "flagged"
    then some "flagged"
    else if normalized == "complete" || normalized == "completed"
    then some "complete"
    else if is_one_of ("notflagged" ∷ "clear" ∷ "none" ∷ []) normalized
    then some "notFlagged"
    else none

-- normalizeCalendarResponse; `none` is its error
unfoldable pub normalize_calendar_response : String → Option (String × String)
normalize_calendar_response value =
    let normalized = to_lower (trim_space (drop_letter 45 (drop_letter 95 value))) in
    if is_one_of ("accept" ∷ "accepted" ∷ []) normalized
    then some ("accept", "accept")
    else if is_one_of ("decline" ∷ "declined" ∷ []) normalized
    then some ("decline", "decline")
    else if is_one_of ("tentative" ∷ "tentativelyaccept" ∷ "tentativelyaccepted" ∷ []) normalized
    then some ("tentative", "tentativelyAccept")
    else none

-- isReversibleMessageMutation
unfoldable pub is_reversible_message_mutation : String → Bool
is_reversible_message_mutation action =
    is_one_of
      ("mail.move_to_folder" ∷ "mail.archive" ∷ "mail.flag" ∷ "mail.categorize" ∷ "mail.mark_read"
        ∷ [])
      action

unfoldable pub reversible_class_for_count : ℕ → SafetyClass
reversible_class_for_count count =
    if nat_eq count 1 then reversible_single_item else reversible_bulk

unfoldable pub allowed_raw_graph_method : String → Bool
allowed_raw_graph_method method =
    is_one_of ("GET" ∷ "POST" ∷ "PATCH" ∷ "PUT" ∷ "DELETE" ∷ []) method

-- mailboxTarget
unfoldable pub mailbox_target : Fields → String
unfolding string_value
mailbox_target payload =
    let mailbox = trim_space (string_value payload "mailbox" "") in
    if mailbox == "" then trim_space (string_value payload "user_id" "") else mailbox

-- mailSearchFolderID
unfoldable pub mail_search_folder_id : Fields → String
unfolding string_value
mail_search_folder_id payload =
    let folder = trim_space (string_value payload "folder" "") in
    if folder == "" then string_value payload "folder_id" "inbox" else folder

unfoldable pub allowed_mailbox_setting : String → Bool
allowed_mailbox_setting setting =
    is_one_of
      ("automaticRepliesSetting" ∷ "dateFormat" ∷ "delegateMeetingMessageDeliveryOptions"
        ∷ "language" ∷ "timeFormat" ∷ "timeZone" ∷ "workingHours" ∷ "userPurpose" ∷ [])
      setting
