-- ===== src/Graph/Single.antt =====
-- The class of a reversible mutation, which the server computes from its count of the targets, against
-- the ids that the Graph transport acts on.
use outlook_agent.Prelude.{List, String, [], arith, length, true, ℕ, ◌+◌, ◌∷◌, ◌≡◌, ◌≤◌}
use outlook_agent.Policy.{reversible_single_item}
use outlook_agent.Action.{Definition}
use outlook_agent.Value.{
  Fields, Items, Value, array, bool, cons, get_field, maps, nil, null, number, object, strings,
  text,
}
use outlook_agent.Server.Canonical.{non_empty_strings}
use outlook_agent.Server.Targets.{
  count_explicit_target_value, count_strings, is_reversible_message_mutation_action,
  safety_class_for_payload,
}
use outlook_agent.Graph.Payload.{
  add_text, ids_or_single, message_ids, single_id, string_slice, texts_of,
}

-- how many of the ids are not blank
abbrev pub filled : List String → ℕ
filled ids = length (non_empty_strings ids)

filled-le : (ids : List String) → filled ids ≤ length ids
unfolding non_empty_strings
filled-le [] = omega arith
filled-le (id ∷ ids) = ground (arith, filled-le ids)

filled-count_strings : (ids : List String) → filled ids ≤ count_strings ids
unfolding non_empty_strings
filled-count_strings [] = omega arith
filled-count_strings (id ∷ ids) = ground (arith, filled-count_strings ids)

filled-add_text :
    (v : Value) (rest : List String) (n : ℕ)
    → filled rest ≤ n
    → filled (add_text v rest) ≤ count_explicit_target_value v + n
unfolding count_explicit_target_value non_empty_strings
filled-add_text (text s) rest n le = ground arith
filled-add_text null rest n le = omega arith
filled-add_text (bool b) rest n le = omega arith
filled-add_text (number x) rest n le = omega arith
filled-add_text (strings xs) rest n le = omega arith
filled-add_text (maps items) rest n le = omega arith
filled-add_text (array items) rest n le = omega arith
filled-add_text (object fs) rest n le = omega arith

filled-texts_of :
    (items : Items) → filled (texts_of items) ≤ count_explicit_target_value (array items)
unfolding count_explicit_target_value texts_of non_empty_strings
filled-texts_of nil = omega arith
filled-texts_of (cons v items) =
    filled-add_text v (texts_of items) (count_explicit_target_value (array items))
      (filled-texts_of items)

filled-string_slice : (v : Value) → filled (string_slice v) ≤ count_explicit_target_value v
unfolding count_explicit_target_value string_slice non_empty_strings
filled-string_slice (strings xs) = filled-count_strings xs
filled-string_slice (array items) = filled-texts_of items
filled-string_slice null = omega arith
filled-string_slice (bool b) = omega arith
filled-string_slice (number x) = omega arith
filled-string_slice (text s) = omega arith
filled-string_slice (maps items) = omega arith
filled-string_slice (object fs) = omega arith

length-single_id : (payload : Fields) → length (single_id payload) ≤ 1
length-single_id payload = ground arith

filled-ids_or_single :
    (payload : Fields) (ids : List String) → filled ids ≤ 1 → filled (ids_or_single payload ids) ≤ 1
filled-ids_or_single payload [] le =
    omega (arith, length-single_id payload, filled-le (single_id payload))
filled-ids_or_single payload (id ∷ ids) le = le

count_of_single :
    (actions : List Definition) (action : String) (payload : Fields)
    → is_reversible_message_mutation_action action ≡ true
    → safety_class_for_payload actions action payload ≡ reversible_single_item
    → count_explicit_target_value (get_field "ids" payload) ≡ 1
unfolding safety_class_for_payload
count_of_single actions action payload e single = ground arith

-- A reversible mutation that the server takes for a single item, and so may execute with no
-- confirmation, makes the Graph transport act on at most one id that is not blank.
pub single_acts_on_one :
    (actions : List Definition) (action : String) (payload : Fields)
    → is_reversible_message_mutation_action action ≡ true
    → safety_class_for_payload actions action payload ≡ reversible_single_item
    → length (non_empty_strings (message_ids payload)) ≤ 1
unfolding message_ids
single_acts_on_one actions action payload e single =
    let ids = get_field "ids" payload in
    filled-ids_or_single payload (string_slice ids)
      (omega (arith, filled-string_slice ids, count_of_single actions action payload e single))
