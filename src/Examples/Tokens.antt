-- ===== src/Examples/Tokens.antt =====
-- Concrete runs of the theorems on the policy, the confirmation tokens, the approval challenges, the
-- manifests and the registry.
use outlook_agent.Prelude.{
  List, String, [], arith, false, if◌then◌else◌, ltb, none, not, ok, refl, some, true, ◌&&◌, ◌++ˢ◌,
  ◌↔◌, ◌∷◌, ◌≡◌, ◌≢◌, ◌≤◌, ◌⊎◌,
}
use outlook_agent.Prelude.Text.{to_lower, trim_space}
use outlook_agent.Value.{end, object}
use outlook_agent.Table.{lookup}
use outlook_agent.Policy.{
  Request, destructive, evaluate, evaluate_confirmed, reversible_single_item,
}
use outlook_agent.Policy.Laws.{
  ConfirmedAllowed, DirectlyAllowed, evaluate-DirectlyAllowed, evaluate_confirmed-ConfirmedAllowed,
}
use outlook_agent.Confirm
use outlook_agent.Confirm.Tokens.{Grants, consume_iff}
use outlook_agent.Confirm.Traces.{
  Call as ConfirmCall, generated, consumed, accepted, issued, accepted-le-issued,
}
use outlook_agent.Approval.{
  Binding, Challenge, Crypto, Store, build_signing_payload, challenge_of, consume, invalid,
  parse_mode, policy_from_env, required, sign_payload, validate, validate_challenge_token,
}
use outlook_agent.Approval.Challenges.{Approves, consume_once, validate_iff}
use outlook_agent.Approval.Modes.{IsTestTransport, normalized, policy_from_env-required}
use outlook_agent.Action.{Definition, typed_schema}
use outlook_agent.Capability.{
  class_request, execution_route_policy, from_definition, route_of_policy,
}
use outlook_agent.Manifest

abbrev purge : Request
purge = record {
  class = destructive;
  explicit_target = true;
  explicit_intent = true;
  unsafe_mode = false;
  sends_message = false;
}

evaluate-DirectlyAllowed_example : ((evaluate purge).allowed ≡ true) ↔ DirectlyAllowed purge
evaluate-DirectlyAllowed_example = evaluate-DirectlyAllowed purge

evaluate_confirmed-ConfirmedAllowed_example :
    ((evaluate_confirmed purge).allowed ≡ true) ↔ ConfirmedAllowed purge
evaluate_confirmed-ConfirmedAllowed_example = evaluate_confirmed-ConfirmedAllowed purge

abbrev hashing : Confirm.Hashing
hashing = record { marshal = λ b. some (b.action ++ˢ b.profile); digest = λ s. s }

abbrev send_binding : Confirm.Binding
send_binding = record {
  action = "SendDraft";
  transport = "graph";
  profile = "work";
  payload = object end;
  unsafe_mode = false;
  safety_class = "send_like";
  review_fingerprint = "r";
}

abbrev move_binding : Confirm.Binding
move_binding = record send_binding { action = "MoveItem" }

abbrev one_token : Confirm.Store
one_token = record {
  records = ("t", record { fingerprint = "SendDraftwork"; expires_at = 40 }) ∷ [];
}

consume_iff_example :
    ((Confirm.consume hashing "t" send_binding 20 one_token).1 ≡ true)
    ↔ Grants hashing "t" send_binding 20 one_token
consume_iff_example = consume_iff hashing "t" send_binding 20 one_token

abbrev two_uses : List ConfirmCall
two_uses =
    generated (some "t") send_binding 30 10
    ∷ consumed "t" send_binding 20
    ∷ consumed "t" send_binding 21
    ∷ []

accepted-le-issued_example : accepted hashing "t" Confirm.new_store two_uses ≤ issued "t" two_uses
accepted-le-issued_example = accepted-le-issued hashing "t" two_uses

abbrev crypto : Crypto
crypto = record {
  mac = λ secret payload. secret ++ˢ payload;
  encode = λ s. s;
  format_time = λ t. "t";
}

abbrev send_approval : Binding
send_approval = record {
  action = "SendDraft";
  transport = "graph";
  profile = "work";
  unsafe_mode = false;
  payload_fingerprint = "p";
  review_fingerprint = "r";
  safety_class = "send_like";
}

abbrev challenge : Challenge
challenge = challenge_of crypto "c" send_approval 30 10

abbrev one_challenge : Store
one_challenge = record { records = ("c", challenge) ∷ [] }

abbrev signature : String
signature = crypto.mac "s" (build_signing_payload crypto challenge)

validate_iff_example :
    ((validate crypto "c" signature "s" send_approval 20 one_challenge).1 ≡ none)
    ↔ Approves crypto "c" signature "s" send_approval 20 one_challenge
validate_iff_example = validate_iff crypto "c" signature "s" send_approval 20 one_challenge

validates : (validate crypto "c" signature "s" send_approval 20 one_challenge).1 ≡ none
unfolding validate build_signing_payload validate_challenge_token lookup trim_space sign_payload
    to_lower
validates = refl

consumes : (consume crypto "c" signature "s" send_approval 20 one_challenge).1 ≡ none
unfolding consume validate build_signing_payload validate_challenge_token lookup trim_space
    sign_payload to_lower
consumes = refl

consume_once_example :
    let t = (consume crypto "c" signature "s" send_approval 20 one_challenge).0 in
    ((validate crypto "c" signature "s" send_approval 21 t).1 ≡ some invalid)
    × ((consume crypto "c" signature "s" send_approval 21 t).1 ≡ some invalid)
consume_once_example =
    consume_once crypto "c" signature "s" send_approval 20 one_challenge consumes signature "s"
      send_approval 21

abbrev misspelt : String → String
misspelt name = " Optional "

weakened : (policy_from_env "graph" misspelt).mode ≢ required
unfolding policy_from_env parse_mode trim_space to_lower
weakened h = ground arith

policy_from_env-required_example :
    (normalized (misspelt "OUTLOOK_AGENT_APPROVAL_MODE") ≡ "dev")
    ⊎ (normalized (misspelt "OUTLOOK_AGENT_APPROVAL_MODE") ≡ "optional")
    ⊎ IsTestTransport "graph"
policy_from_env-required_example = policy_from_env-required "graph" misspelt weakened

abbrev definition : Definition
definition = record {
  name = "MoveItem";
  transport = "graph";
  description = "";
  class = reversible_single_item;
  level = typed_schema;
}

execution_route_policy_example :
    ((from_definition definition).execution_route ≡ route_of_policy definition.class)
    × ((from_definition definition).requires_explicit_target ≡ (
        not (evaluate (class_request definition.class)).allowed
        && (evaluate (record (class_request definition.class) { explicit_target = true })).allowed))
    × ((from_definition definition).requires_explicit_intent ≡ (
        not (evaluate (class_request definition.class)).allowed
        && (evaluate (record (class_request definition.class) { explicit_intent = true })).allowed))
execution_route_policy_example = execution_route_policy definition

abbrev moved : Manifest.Record
moved = record {
  id = "";
  action = "MoveItem";
  ids = "m1" ∷ "m2" ∷ [];
  mailbox = "";
  created_at = 0;
  expires_at = 0;
}

abbrev stamped : Manifest.Record
stamped = Manifest.stamped moved "m" 30 10

issues_it : (Manifest.issue moved (some "m") 30 10 Manifest.new_store).1 ≡ ok stamped
unfolding Manifest.issue
issues_it = refl

get-issue_example :
    let t = (Manifest.issue moved (some "m") 30 10 Manifest.new_store).0 in
    ((Manifest.get "m" 20 t).1 ≡ (if ltb 20 40 then some stamped else none))
    × (stamped.ids ≡ moved.ids)
    × (stamped.action ≡ moved.action)
    × (ltb 20 40 ≡ false → lookup "m" (Manifest.get "m" 20 t).0.records ≡ none)
get-issue_example =
    Manifest.get-issue moved (some "m") 30 10 20 Manifest.new_store stamped issues_it
