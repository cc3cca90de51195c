-- ===== src/Server/Targets.antt =====
-- The class of a request and the explicit targets of its payload.
use outlook_agent.Prelude.{
  Bool, List, String, [], false, if◌then◌else◌, nat_eq, not, true, ℕ, ◌&&◌, ◌+◌, ◌==◌, ◌||◌, ◌∷◌,
}
use outlook_agent.Prelude.Text.{is_blank}
use outlook_agent.Policy.{
  Decision, SafetyClass, destructive, evaluate_confirmed, reversible_bulk, reversible_single_item,
  send_like, settings_or_rules, unknown,
}
use outlook_agent.Action.{Definition}
use outlook_agent.Value.{
  Fields, Items, Value, array, maps, as_fields, as_text, bool, cons, end, field, get_field, nil,
  null, number, object, strings, text,
}

abbrev pub count_text : String → ℕ
count_text s = if is_blank s then 0 else 1

abbrev pub count_strings : List String → ℕ
count_strings [] = 0
count_strings (s ∷ rest) = count_text s + count_strings rest

-- countExplicitTargetValue; `count_key` is its value at the field of that name
unfoldable mutual
  pub count_explicit_target_value : Value → ℕ
  count_explicit_target_value null = 0
  count_explicit_target_value (bool b) = 0
  count_explicit_target_value (number n) = 0
  count_explicit_target_value (text s) = count_text s
  count_explicit_target_value (strings xs) = count_strings xs
  count_explicit_target_value (maps items) = 0
  count_explicit_target_value (array items) = count_items items
  count_explicit_target_value (object fields) =
      if nat_eq (count_key "id" fields) 1
      then 1
      else if nat_eq (count_key "Id" fields) 1
      then 1
      else 0

  pub count_items : Items → ℕ
  count_items nil = 0
  count_items (cons v rest) = count_explicit_target_value v + count_items rest

  pub count_key : String → Fields → ℕ
  count_key k end = 0
  count_key k (field j v rest) = if j == k then count_explicit_target_value v else count_key k rest

-- countExplicitTargetValue(body[key]) == 1 for one of the keys
unfoldable pub has_one_target : List String → Fields → Bool
has_one_target [] body = false
has_one_target (k ∷ keys) body =
    nat_eq (count_explicit_target_value (get_field k body)) 1 || has_one_target keys body

abbrev pub body_of : Fields → Fields
body_of payload = as_fields (get_field "Body" payload)

unfoldable pub has_body_explicit_target : List String → Fields → Bool
unfolding has_one_target
has_body_explicit_target keys payload = has_one_target keys (body_of payload)

unfoldable pub has_explicit_target : Fields → Bool
unfolding has_one_target
has_explicit_target payload =
    not (as_text (get_field "id" payload) == "")
    || not (as_text (get_field "attachment_id" payload) == "")
    || nat_eq (count_explicit_target_value (get_field "ids" payload)) 1
    || has_one_target ("ItemIds" ∷ "ItemId" ∷ "AttachmentIds" ∷ "AttachmentId" ∷ [])
        (body_of payload)

unfoldable pub has_explicit_target_for_action : String → Fields → Bool
unfolding has_body_explicit_target has_explicit_target
has_explicit_target_for_action action payload =
    if action == "GetItem"
    then has_body_explicit_target ("ItemIds" ∷ "ItemId" ∷ []) payload
    else if action == "GetAttachment"
    then has_body_explicit_target ("AttachmentIds" ∷ "AttachmentId" ∷ []) payload
    else if action == "SearchMailboxes"
    then false
    else has_explicit_target payload

unfoldable pub is_move_to_deleted_items : String → Fields → Bool
is_move_to_deleted_items action payload =
    if not (action == "DeleteItem") && not (action == "DeleteFolder")
    then false
    else as_text (get_field "DeleteType" (body_of payload)) == "MoveToDeletedItems"

unfoldable pub is_reversible_message_mutation_action : String → Bool
is_reversible_message_mutation_action action =
    action == "mail.move_to_folder"
    || action == "mail.archive"
    || action == "mail.flag"
    || action == "mail.categorize"
    || action == "mail.mark_read"

-- the first definition of that name
unfoldable pub safety_class_for : List Definition → String → SafetyClass
safety_class_for [] action = unknown
safety_class_for (d ∷ rest) action =
    if d.name == action then d.class else safety_class_for rest action

abbrev is_destructive : SafetyClass → Bool
is_destructive destructive = true
is_destructive c = false

unfoldable pub safety_class_for_payload : List Definition → String → Fields → SafetyClass
unfolding is_move_to_deleted_items is_reversible_message_mutation_action
safety_class_for_payload actions action payload =
    let class = safety_class_for actions action in
    if is_destructive class && is_move_to_deleted_items action payload
    then reversible_bulk
    else if is_reversible_message_mutation_action action
    then (if nat_eq (count_explicit_target_value (get_field "ids" payload)) 1
        then reversible_single_item
        else reversible_bulk)
    else class

unfoldable pub confirmed_action_decision : List Definition → String → Fields → Bool → Decision
confirmed_action_decision actions action payload unsafe_mode = evaluate_confirmed (record {
  class = safety_class_for_payload actions action payload;
  explicit_target = has_explicit_target_for_action action payload;
  explicit_intent = false;
  unsafe_mode = unsafe_mode;
  sends_message = false;
})

unfoldable pub requires_approval_for_class : SafetyClass → Bool
requires_approval_for_class reversible_bulk = true
requires_approval_for_class destructive = true
requires_approval_for_class send_like = true
requires_approval_for_class settings_or_rules = true
requires_approval_for_class unknown = true
requires_approval_for_class c = false
