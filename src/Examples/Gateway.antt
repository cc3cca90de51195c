-- ===== src/Examples/Gateway.antt =====
-- Concrete runs of the theorems on the server, over a transport that counts what it executes.
use outlook_agent.Prelude.{
  All, List, [], arith, false, length, none, ok, refl, some, suc, true, ℕ, ◌++ˢ◌, ◌++◌, ◌+◌, ◌<◌,
  ◌∷◌, ◌≡◌, ◌≤◌,
}
use outlook_agent.Value.{Fields, end, field, text}
use outlook_agent.Action.{typed_schema}
use outlook_agent.Server.Canonical.{action_preflight_rejection, canonical_action_payload}
use outlook_agent.Server.Targets.{
  confirmed_action_decision, requires_approval_for_class, safety_class_for,
  safety_class_for_payload,
}
use outlook_agent.Server.Refusals.{IsEmptyHanded, dry_run_refused}
use outlook_agent.Policy.{evaluate_confirmed, unknown, reversible_single_item, send_like, to_string}
use outlook_agent.Table.{insert, lookup}
use outlook_agent.Prelude.Text.{to_lower, trim_space}
use outlook_agent.Server.Gate.{
  Credentials, Reviewed, approval_binding_for, check_tokens, confirmation_binding_for,
  consume_confirmation, consume_external_approval, dry_run_review_for, review_packet_for,
  validate_external_approval,
}
use outlook_agent.Confirm
use outlook_agent.Confirm.Tokens.{Grants}
use outlook_agent.Approval
use outlook_agent.Approval.{
  Challenge, build_signing_payload, challenge_of, consume, dev, new_store, random, require_approval,
  required, sign_payload, validate, validate_challenge_token,
}
use outlook_agent.Approval.Challenges.{Approves}
use outlook_agent.Manifest
use outlook_agent.Cursor
use outlook_agent.Server.{Runtime, State, Transport, approval_challenge_ttl}
use outlook_agent.Server.Tokens.{check_tokens_pass}
use outlook_agent.Server.Audits.{IsAudited}
use outlook_agent.Server.Trail.{handle-IsAudited}
use outlook_agent.Server.Handlers.{ActionConfirmInput, RawActionInput, action_confirm}
use outlook_agent.Server.Safety.{IsPermitted}
use outlook_agent.Server.Calls.{
  handle, handle-IsPermitted, confirmed as confirm_call, raw as raw_call,
}
use outlook_agent.Server.DryRun.{DryRunInput, DryRunOutput, dry_run_approval_info, dry_run_handler}
use outlook_agent.Server.RoundTrip.{confirm_input, dry_request, dry_run_then_confirm}
use outlook_agent.Server.Replay.{HasToken, confirm_all, confirm_at_most_once}

abbrev counting : Transport
counting = record {
  World = ℕ;
  name = "graph";
  capabilities =
      record {
        name = "MoveItem";
        transport = "graph";
        description = "";
        class = reversible_single_item;
        level = typed_schema;
      }
      ∷ [];
  authenticate = λ p n. (record { ok = true; principal = p; error = "" }, n);
  execute = λ q n. (record { ok = true; fields = none; error = "" }, suc n);
  dry_run = λ q n. (
    record {
      action = q.name;
      count = 1;
      reversible = true;
      requires_confirmation = true;
      review = none;
      warnings = [];
      error = "";
    },
    n,
  );
}

abbrev runtime : Runtime
runtime = record {
  client = counting;
  profile = "work";
  policy = record { mode = dev; secret = ""; legacy_token = "" };
  hashing = record { marshal = λ b. some (b.action ++ˢ b.profile); digest = λ s. s };
  crypto = record {
    mac = λ secret payload. secret ++ˢ payload;
    encode = λ s. s;
    format_time = λ t. "t";
  };
  payload_fingerprint = λ p. "p";
  review_fingerprint = λ p. "r";
  redact_text = λ s. s;
  to_int = λ s. s;
  expose_next_link = false;
  clock = λ n. n;
  random = λ n. some "token";
}

abbrev started : State runtime
started = record {
  world = 0;
  confirms = Confirm.new_store;
  approvals = Approval.new_store;
  manifests = Manifest.new_store;
  cursors = Cursor.new_store;
  audit = [];
  executed = [];
  direct = [];
  ticks = 0;
  draws = 0;
}

abbrev move_payload : Fields
move_payload = field "id" (text "m1") (field "destination" (text "Archive") end)

abbrev move_input : DryRunInput
move_input = record {
  action = "MoveItem";
  payload = move_payload;
  unsafe_mode = false;
  profile = "";
}

abbrev reviewed_move : Reviewed
reviewed_move = record {
  action = "MoveItem";
  payload = move_payload;
  unsafe_mode = false;
  profile = "work";
  class = reversible_single_item;
  review = review_packet_for runtime "MoveItem" move_payload none reversible_single_item;
  count = 1;
}

abbrev answer : DryRunOutput
answer = record {
  action = "MoveItem";
  ok = true;
  count = 1;
  reversible = true;
  requires_confirmation = true;
  requires_unsafe = false;
  requires_approval = false;
  confirmation_token = "token";
  approval_challenge = none;
  approval = some (dry_run_approval_info runtime false none);
  review = reviewed_move.review;
  warnings = [];
  error = "";
}

is_answered : (dry_run_handler runtime move_input started).0 ≡ ok answer
unfolding dry_run_handler canonical_action_payload action_preflight_rejection dry_run_review_for
    confirmed_action_decision evaluate_confirmed safety_class_for_payload safety_class_for
    Confirm.generate
is_answered = refl

-- the state after the dry run
abbrev dry_run_state : State runtime
dry_run_state = (dry_run_handler runtime move_input started).1

same_dry_run :
    (counting.dry_run (dry_request move_input) dry_run_state.world).0
    ≡ (counting.dry_run (dry_request move_input) started.world).0
same_dry_run = refl

in_time : runtime.clock 1 < runtime.clock 0 + approval_challenge_ttl
in_time = omega arith

dry_run_then_confirm_example :
    (action_confirm runtime (confirm_input move_input "token") dry_run_state).1.executed
    ≡ dry_run_state.executed ++ dry_request move_input ∷ []
dry_run_then_confirm_example =
    dry_run_then_confirm runtime refl move_input started answer is_answered refl same_dry_run
      in_time

abbrev token_credentials : Credentials
token_credentials = record { confirm_token = "token"; challenge_id = ""; approval_token = "" }

handle-IsPermitted_example :
    IsPermitted runtime false token_credentials dry_run_state
      (handle runtime token_credentials
        (confirm_call (confirm_input move_input "token"))
        dry_run_state).1
handle-IsPermitted_example =
    handle-IsPermitted runtime token_credentials (confirm_call (confirm_input move_input "token"))
      dry_run_state

abbrev twice : List ActionConfirmInput
twice = confirm_input move_input "token" ∷ confirm_input move_input "token" ∷ []

both_have_it : All (HasToken "token") twice
both_have_it = (refl, (refl, tt))

confirm_at_most_once_example :
    length (confirm_all runtime twice dry_run_state).executed ≤ suc (length dry_run_state.executed)
confirm_at_most_once_example = confirm_at_most_once runtime "token" twice dry_run_state both_have_it

-- the same server for a host that requires approvals, and a message to send
abbrev guarded : Runtime
guarded = record runtime { policy = record { mode = required; secret = "s"; legacy_token = "" } }

abbrev reviewed_send : Reviewed
reviewed_send = record reviewed_move {
  action = "SendItem";
  class = send_like;
  review = review_packet_for guarded "SendItem" move_payload none send_like;
}

abbrev send_challenge : Approval.Challenge
send_challenge =
    Approval.challenge_of guarded.crypto "c" (approval_binding_for guarded reviewed_send) 30 0

abbrev both_credentials : Credentials
both_credentials = record {
  confirm_token = "token";
  challenge_id = "c";
  approval_token =
      guarded.crypto.mac "s" (Approval.build_signing_payload guarded.crypto send_challenge);
}

abbrev reviewed_state : State guarded
reviewed_state = record {
  world = 0;
  confirms =
      (Confirm.generate guarded.hashing (some "token")
        (confirmation_binding_for guarded reviewed_send) 30 0 Confirm.new_store).0;
  approvals = record { records = ("c", send_challenge) ∷ [] };
  manifests = Manifest.new_store;
  cursors = Cursor.new_store;
  audit = [];
  executed = [];
  direct = [];
  ticks = 2;
  draws = 2;
}

passes : (check_tokens guarded reviewed_send both_credentials reviewed_state).1 ≡ none
unfolding check_tokens validate_external_approval Approval.require_approval
    requires_approval_for_class consume_confirmation Confirm.consume lookup insert Confirm.generate
    Confirm.fingerprint confirmation_binding_for approval_binding_for Approval.validate
    Approval.consume Approval.build_signing_payload Approval.validate_challenge_token
    Approval.sign_payload trim_space to_lower consume_external_approval review_packet_for to_string
passes = refl

check_tokens_pass_example :
    ((t : ℕ) × (2 ≤ t)
      × Grants guarded.hashing "token"
          (confirmation_binding_for guarded reviewed_send)
          (guarded.clock t)
          reviewed_state.confirms)
    × (guarded.policy.mode ≡ required
        → requires_approval_for_class send_like ≡ true
        → Approves guarded.crypto "c" both_credentials.approval_token "s"
            (approval_binding_for guarded reviewed_send)
            2
            reviewed_state.approvals)
check_tokens_pass_example =
    check_tokens_pass guarded reviewed_send both_credentials reviewed_state passes

abbrev purge_input : DryRunInput
purge_input = record move_input { action = "Purge" }

abbrev refusal : DryRunOutput
refusal = record answer {
  action = "Purge";
  ok = false;
  requires_unsafe = true;
  confirmation_token = "";
  review = review_packet_for runtime "Purge" move_payload none unknown;
  error = "unknown action requires unsafe dry-run confirmation";
}

is_refused : (dry_run_handler runtime purge_input started).0 ≡ ok refusal
unfolding dry_run_handler canonical_action_payload action_preflight_rejection dry_run_review_for
    confirmed_action_decision evaluate_confirmed safety_class_for_payload safety_class_for
    Confirm.generate
is_refused = refl

dry_run_refused_example :
    IsEmptyHanded runtime refusal started (dry_run_handler runtime purge_input started).1
dry_run_refused_example = dry_run_refused runtime purge_input started refusal is_refused refl

abbrev raw_move : RawActionInput
raw_move = record {
  action = "MoveItem";
  payload = move_payload;
  unsafe_mode = false;
  explicit_intent = true;
  profile = "";
}

handle-IsAudited_example :
    IsAudited runtime (handle runtime token_credentials (raw_call raw_move) started).1
handle-IsAudited_example =
    handle-IsAudited runtime token_credentials (raw_call raw_move) started refl
