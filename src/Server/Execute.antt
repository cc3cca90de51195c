-- ===== src/Server/Execute.antt =====
-- The execution behind the gate: the client's Execute, the audit trail of it, and the manifest of
-- the ids that a mutation touched.
use outlook_agent.Prelude.{
  ok, Bool, List, Option, Result, String, [], err, false, if◌then◌else◌, none, not, some, suc, true,
  ℕ, ◌++◌, ◌==◌, ◌||◌, ◌∷◌,
}
use outlook_agent.Value.{
  Fields, Items, Value, array, maps, as_text, bool, cons, delete_field, get_field, lookup_field,
  nil, null, number, object, strings, text,
}
use outlook_agent.Manifest
use outlook_agent.Redact
use outlook_agent.Server.{
  ActionRequest, ActionResponse, EventType, Runtime, State, mutation_manifest_ttl,
}
use outlook_agent.Server.Gate.{Reviewed, record_audit}
use outlook_agent.Server.Canonical.{non_empty_strings}
use outlook_agent.Server.Targets.{is_reversible_message_mutation_action}

-- ActionResultOutput
pub record ActionResult : Type 0 where
  pub ok : Bool
  pub fields : Option Fields
  pub error : String
  pub manifest_id : String
  pub manifest_ttl_seconds : ℕ

abbrev pub failed : String → ActionResult
failed message = record {
  ok = false;
  fields = none;
  error = message;
  manifest_id = "";
  manifest_ttl_seconds = 0;
}

abbrev first_text : Option Value → List String → List String
first_text (some (text s)) fallback = s ∷ []
first_text o fallback = fallback

-- manifestIDsFromValue
unfoldable mutual
  pub manifest_ids_from_value : Value → List String
  manifest_ids_from_value null = []
  manifest_ids_from_value (bool b) = []
  manifest_ids_from_value (number n) = []
  manifest_ids_from_value (text s) = s ∷ []
  manifest_ids_from_value (strings xs) = xs
  manifest_ids_from_value (maps items) = []
  manifest_ids_from_value (array items) = manifest_ids_from_items items
  manifest_ids_from_value (object fs) =
      first_text (lookup_field "id" fs) (first_text (lookup_field "Id" fs) [])

  pub manifest_ids_from_items : Items → List String
  manifest_ids_from_items nil = []
  manifest_ids_from_items (cons v rest) = manifest_ids_from_value v ++ manifest_ids_from_items rest

-- manifestIDsFromDataKey: `none` where the key is missing
unfoldable pub manifest_ids_from_data_key : Option Fields → String → Option (List String)
manifest_ids_from_data_key none key = none
manifest_ids_from_data_key (some fs) key = elim (lookup_field key fs) [
  | none ↦ none
  | some v ↦ some (manifest_ids_from_value v)
]

unfoldable pub issues_mutation_manifest : String → Bool
unfolding is_reversible_message_mutation_action
issues_mutation_manifest action =
    action == "mail.move_to_deleted_items" || is_reversible_message_mutation_action action

unfoldable pub move_like_mutation_action : String → Bool
move_like_mutation_action action =
    action == "mail.move_to_deleted_items"
    || action == "mail.move_to_folder"
    || action == "mail.archive"

abbrev strip_ids : Option Fields → Option Fields
strip_ids none = none
strip_ids (some fs) = some (delete_field "mutation_manifest_ids" fs)

-- the ids of a mutation that does not move: the explicit success list, or the ids asked for
abbrev succeeded_ids : Bool → Fields → Option (List String) → Option (List String)
succeeded_ids true payload none = some (manifest_ids_from_value (get_field "ids" payload))
succeeded_ids false payload none = none
succeeded_ids true payload (some ids) = some ids
succeeded_ids false payload (some []) = none
succeeded_ids false payload (some (id ∷ ids)) = some (id ∷ ids)

-- The ids to list, `none` where the code returns without a manifest.
unfoldable pub manifest_ids : String → Fields → ActionResult → Option (List String)
unfolding manifest_ids_from_data_key move_like_mutation_action
manifest_ids action payload output =
    elim (manifest_ids_from_data_key output.fields "mutation_manifest_ids") [
      | some ids ↦ some ids
      | none ↦
          if move_like_mutation_action action
          then none
          else succeeded_ids output.ok payload
              (manifest_ids_from_data_key output.fields "succeeded")
    ]

module _ (r : Runtime) where
  -- runtime.client.Execute
  unfoldable pub execute : Reviewed → State r → ActionResponse × State r
  execute v s =
      let request : ActionRequest = record {
        name = v.action;
        payload = v.payload;
        unsafe_mode = v.unsafe_mode;
      } in
      let (response, world) = r.client.execute request s.world in
      (response, record s { world = world; executed = s.executed ++ request ∷ [] })

  abbrev pub audit_decision : ActionResponse → String
  audit_decision response = if response.ok then "ok" else "error"

  -- Execute and its audit event
  unfoldable pub execute_audited : Reviewed → State r → ActionResponse × State r
  unfolding record_audit
  execute_audited v s =
      let (response, s') = execute v s in
      (response, record_audit r EventType.execute v (audit_decision response) response.error s')

  -- actionResultFromResponse
  unfoldable pub action_result_from_response : ActionResponse → ActionResult
  action_result_from_response response = record {
    ok = response.ok;
    fields = elim response.fields [ none ↦ none | some fs ↦ some (Redact.fields r.redact_text fs) ];
    error = r.redact_text response.error;
    manifest_id = "";
    manifest_ttl_seconds = 0;
  }

  abbrev issued :
      ActionResult
      → State r
      → Manifest.Store × Result Manifest.Error Manifest.Record
      → ActionResult × State r
  issued output s (store, ok m) = (
    record output { manifest_id = m.id; manifest_ttl_seconds = 1800 },
    record s { manifests = store; ticks = suc s.ticks; draws = suc s.draws },
  )
  issued output s (store, err e) =
      (output, record s { manifests = store; ticks = suc s.ticks; draws = suc s.draws })

  abbrev issue_manifest :
      String → Fields → ActionResult → State r → List String → ActionResult × State r
  issue_manifest action payload output s [] = (output, s)
  issue_manifest action payload output s (id ∷ ids) = issued output s (
      Manifest.issue
        (record {
          id = "";
          action = action;
          ids = id ∷ ids;
          mailbox = as_text (get_field "mailbox" payload);
          created_at = 0;
          expires_at = 0;
        })
        (r.random s.draws) mutation_manifest_ttl (r.clock s.ticks) s.manifests)

  abbrev attach_ids :
      String → Fields → ActionResult → State r → Option (List String) → ActionResult × State r
  attach_ids action payload output s none = (output, s)
  attach_ids action payload output s (some ids) =
      issue_manifest action payload output s (non_empty_strings ids)

  -- attachMutationManifest
  unfoldable pub attach_mutation_manifest :
      String → Fields → ActionResult → State r → ActionResult × State r
  unfolding issues_mutation_manifest
  attach_mutation_manifest action payload output s =
      if not (issues_mutation_manifest action)
      then (output, s)
      else attach_ids action payload (record output { fields = strip_ids output.fields }) s
          (manifest_ids action payload output)

  abbrev pub attached : Bool → Reviewed → ActionResponse × State r → ActionResult × State r
  attached false v (response, s) = (action_result_from_response response, s)
  attached true v (response, s) =
      attach_mutation_manifest v.action v.payload (action_result_from_response response) s

  -- What follows the gate: the refusal, or the execution, with a manifest where the handler asks.
  unfoldable pub finish : Bool → Reviewed → State r × Option String → ActionResult × State r
  unfolding record_audit
  finish with_manifest v (s, some message) = (failed message, s)
  finish with_manifest v (s, none) =
      attached with_manifest v
        (execute_audited v (record_audit r EventType.confirm v "accepted" "" s))
