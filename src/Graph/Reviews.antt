-- ===== src/Graph/Reviews.antt =====
-- The dry runs of reversible mutations in internal/transport/graph/transport.go: the two cases of
-- DryRun, graphMoveToDeletedItemsReview and graphReversibleMutationReview. The targets and the mutation
-- of a packet stand in its details, encoded as in JSON.
pub mod Counts
use outlook_agent.Prelude.{
  Bool, List, Option, String, [], if◌then◌else◌, length, ltb, map, nat_eq, none, some, true, ℕ,
  ◌++ˢ◌, ◌==◌, ◌∷◌,
}
use outlook_agent.Prelude.Text.{trim_space}
use outlook_agent.Policy.{SafetyClass, reversible_bulk, to_string}
use outlook_agent.Value.{
  Fields, Items, Value, bool, array, cons, end, field, get_field, nil, number, object, strings,
  text,
}
use outlook_agent.Review.{TargetRef, clamp_target_refs, default_review_target_limit}
use outlook_agent.Server.{DryRunSummary, ReviewPacket}
use outlook_agent.Graph.Payload.{
  bool_value, message_ids, normalize_flag_status, reversible_class_for_count, string_slice,
  string_value,
}

abbrev pub message_target : String → TargetRef
message_target id = record { kind = "message"; id = id; name = "" }

-- a text that JSON leaves out where it is empty
abbrev put_text : String → String → Fields → Fields
put_text key value fs = if value == "" then fs else field key (text value) fs

abbrev pub target_items : List TargetRef → Items
target_items [] = nil
target_items (t ∷ ts) =
    cons (object (field "kind" (text t.kind) (put_text "id" t.id (put_text "name" t.name end))))
      (target_items ts)

-- MutationReview, without the two fields that these reviews leave empty
pub record MutationReview : Type 0 where
  pub operation : String
  pub to : String
  pub new_state : Option Fields

abbrev put_state : Option Fields → Fields
put_state none = end
put_state (some fs) = field "new_state" (object fs) end

abbrev mutation_fields : MutationReview → Fields
mutation_fields m =
    field "operation" (text m.operation) (put_text "to" m.to (put_state m.new_state))

abbrev operation_only : String → MutationReview
operation_only name = record { operation = name; to = ""; new_state = none }

abbrev flag_state : Option String → Option Fields
flag_state none = none
flag_state (some status) = some (field "flag_status" (text status) end)

abbrev read_state : Option Bool → Option Fields
read_state none = none
read_state (some b) = some (field "is_read" (bool b) end)

-- the mutation that graphReversibleMutationReview names
unfoldable pub mutation_of : String → Fields → MutationReview
mutation_of action payload =
    if action == "mail.move_to_folder"
    then (record {
      operation = "move";
      to = trim_space (string_value payload "folder_id" "");
      new_state = none;
    })
    else if action == "mail.archive"
    then (record { operation = "move"; to = "Archive"; new_state = none })
    else if action == "mail.flag"
    then (record {
      operation = "set_flag";
      to = "";
      new_state = flag_state (normalize_flag_status (string_value payload "flag_status" ""));
    })
    else if action == "mail.categorize"
    then (record {
      operation = "set_categories";
      to = "";
      new_state =
          some (field "categories" (strings (string_slice (get_field "categories" payload))) end);
    })
    else if action == "mail.mark_read"
    then (record {
      operation = "set_read_state";
      to = "";
      new_state = read_state (bool_value payload "is_read");
    })
    else operation_only action

-- transport.PayloadFingerprint, and fmt's %d
module _ (fingerprint : Fields → String) (decimal : ℕ → String) where
  abbrev put_count : ℕ → Fields → Fields
  put_count n fs = if nat_eq n 0 then fs else field "omitted_target_count" (number (decimal n)) fs

  abbrev details_of : List TargetRef × ℕ → MutationReview → Value
  details_of ([], omitted) m =
      object (put_count omitted (field "mutation" (object (mutation_fields m)) end))
  details_of (t ∷ ts, omitted) m = object (
      field "targets" (array (target_items (t ∷ ts)))
        (put_count omitted (field "mutation" (object (mutation_fields m)) end)))

  -- a review of messages: partial where targets are left out
  unfoldable pub messages_review :
      String → SafetyClass → Fields → List TargetRef × ℕ → MutationReview → ReviewPacket
  messages_review action class payload (shown, omitted) m = record {
    version = "v1";
    transport = "graph";
    action = action;
    safety_class = to_string class;
    completeness = if ltb 0 omitted then "partial" else "complete";
    warning_codes = if ltb 0 omitted then "targets_omitted_from_review" ∷ [] else [];
    details = details_of (shown, omitted) m;
    payload_fingerprint = fingerprint payload;
    limitations =
        if ltb 0 omitted
        then (decimal omitted ++ˢ " additional targets omitted from review output") ∷ []
        else [];
  }

  abbrev pub shown_targets : List String → List TargetRef × ℕ
  shown_targets ids = clamp_target_refs (map message_target ids) default_review_target_limit

  unfoldable pub move_to_deleted_items_review : String → Fields → List String → ReviewPacket
  unfolding messages_review clamp_target_refs
  move_to_deleted_items_review action payload ids =
      messages_review action reversible_bulk payload (shown_targets ids)
        (record { operation = "move"; to = "Deleted Items"; new_state = none })

  unfoldable pub reversible_mutation_review :
      String → Fields → List String → SafetyClass → ReviewPacket
  unfolding messages_review clamp_target_refs mutation_of
  reversible_mutation_review action payload ids class =
      messages_review action class payload (shown_targets ids) (mutation_of action payload)

  abbrev pub summary_of : String → ℕ → Bool → ReviewPacket → List String → DryRunSummary
  summary_of action count confirm review warnings = record {
    action = action;
    count = count;
    reversible = true;
    requires_confirmation = confirm;
    review = some review;
    warnings = warnings;
    error = "";
  }

  -- the case of DryRun for mail.move_to_deleted_items
  unfoldable pub dry_run_deletion : String → Fields → DryRunSummary
  unfolding move_to_deleted_items_review string_slice
  dry_run_deletion action payload =
      let ids = string_slice (get_field "ids" payload) in
      summary_of action (length ids) true (move_to_deleted_items_review action payload ids) []

  -- the case of DryRun for the other reversible mutations
  unfoldable pub dry_run_mutation : String → Fields → DryRunSummary
  unfolding reversible_mutation_review reversible_class_for_count message_ids
  dry_run_mutation action payload =
      let ids = message_ids payload in
      let class = reversible_class_for_count (length ids) in
      let review = reversible_mutation_review action payload ids class in
      summary_of action (length ids) (ltb 1 (length ids)) review review.limitations
