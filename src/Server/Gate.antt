-- ===== src/Server/Gate.antt =====
-- The gate that a reviewed action passes before it is executed: the approval is validated, the
-- confirmation token consumed, the approval consumed, and the policy asked.
use outlook_agent.Prelude.{
  Bool, Option, Result, String, [], err, false, if◌then◌else◌, none, not, ok, some, suc, true, ℕ,
  ◌&&◌, ◌++◌, ◌==◌, ◌∷◌,
}
use outlook_agent.Prelude.Text.{is_blank}
use outlook_agent.Policy.{Decision, SafetyClass, to_string}
use outlook_agent.Value.{Fields, Value, object}
use outlook_agent.Confirm
use outlook_agent.Approval
use outlook_agent.Approval.{
  Binding, Error, Store, consume, invalid, is_optional, message, require_approval, validate,
  validate_legacy_token,
}
use outlook_agent.Server.{DryRunSummary, EventType, ReviewPacket, Runtime, State, reject}
use outlook_agent.Server.Targets.{
  confirmed_action_decision, requires_approval_for_class, safety_class_for_payload,
}

-- What the handlers know of an action under review.
pub record Reviewed : Type 0 where
  pub action : String
  pub payload : Fields
  pub unsafe_mode : Bool
  pub profile : String
  pub class : SafetyClass
  pub review : ReviewPacket
  pub count : ℕ

-- The credentials of a request: a confirmation token, and an approval challenge with its signature.
pub record Credentials : Type 0 where
  pub confirm_token : String
  pub challenge_id : String
  pub approval_token : String

abbrev pub or_else : String → String → String
or_else s fallback = if s == "" then fallback else s

module _ (r : Runtime) where
  -- reviewPacketFor
  abbrev pub minimal_review : String → Fields → SafetyClass → ReviewPacket
  minimal_review action payload class = record {
    version = "v1";
    transport = r.client.name;
    action = action;
    safety_class = to_string class;
    completeness = "minimal";
    warning_codes = "rich_review_unavailable" ∷ [];
    details = Value.null;
    payload_fingerprint = r.payload_fingerprint payload;
    limitations = "transport did not provide a rich dry-run review packet" ∷ [];
  }

  abbrev pub completed_review : String → Fields → SafetyClass → ReviewPacket → ReviewPacket
  completed_review action payload class review = record review {
    version = or_else review.version "v1";
    transport = or_else review.transport r.client.name;
    action = or_else review.action action;
    safety_class = or_else review.safety_class (to_string class);
    payload_fingerprint = or_else review.payload_fingerprint (r.payload_fingerprint payload);
  }

  unfoldable pub review_packet_for :
      String → Fields → Option ReviewPacket → SafetyClass → ReviewPacket
  review_packet_for action payload none class = minimal_review action payload class
  review_packet_for action payload (some review) class =
      completed_review action payload class review

  -- confirmationBindingFor
  unfoldable pub confirmation_binding_for : Reviewed → Confirm.Binding
  confirmation_binding_for v = record {
    action = v.action;
    transport = r.client.name;
    profile = v.profile;
    payload = object v.payload;
    unsafe_mode = v.unsafe_mode;
    safety_class = to_string v.class;
    review_fingerprint = r.review_fingerprint v.review;
  }

  -- approvalBindingFor
  unfoldable pub approval_binding_for : Reviewed → Approval.Binding
  approval_binding_for v = record {
    action = v.action;
    transport = r.client.name;
    profile = v.profile;
    unsafe_mode = v.unsafe_mode;
    payload_fingerprint = v.review.payload_fingerprint;
    review_fingerprint = r.review_fingerprint v.review;
    safety_class = to_string v.class;
  }

  -- recordAudit
  unfoldable pub record_audit : EventType → Reviewed → String → String → State r → State r
  record_audit type v decision message s = record s {
    audit =
        s.audit
        ++ record {
          type = type;
          transport = r.client.name;
          profile = or_else v.profile r.profile;
          action = v.action;
          class = v.class;
          decision = decision;
          payload_fingerprint =
              or_else v.review.payload_fingerprint (r.payload_fingerprint v.payload);
          review_fingerprint = r.review_fingerprint v.review;
          count = v.count;
          error = message;
        }
          ∷ [];
  }

  abbrev pub reject_with : Reviewed → String → State r → State r
  reject_with v message s = record_audit reject v "blocked" message s

  -- dryRunReviewFor: the class and the review come from the same request that is dry-run
  unfoldable pub dry_run_review_for :
      String → Fields → Bool → String → State r → DryRunSummary × Reviewed × State r
  dry_run_review_for action payload unsafe_mode profile s =
      let (summary, world) =
        r.client.dry_run (record { name = action; payload = payload; unsafe_mode = unsafe_mode })
          s.world in
      let class = safety_class_for_payload r.client.capabilities action payload in
      (
        summary,
        record {
          action = action;
          payload = payload;
          unsafe_mode = unsafe_mode;
          profile = profile;
          class = class;
          review = review_packet_for action payload summary.review class;
          count = summary.count;
        },
        record s { world = world },
      )

  abbrev pub store_validated :
      State r → Approval.Store × Option Approval.Error → State r × Option Approval.Error
  store_validated s (store, e) = (record s { approvals = store; ticks = suc s.ticks }, e)

  abbrev pub validate_challenge : Reviewed → Credentials → State r → State r × Option Approval.Error
  validate_challenge v c s = store_validated s (
      Approval.validate r.crypto c.challenge_id c.approval_token r.policy.secret
        (approval_binding_for v) (r.clock s.ticks) s.approvals)

  abbrev pub pending_of : State r × Option Approval.Error → State r × Result String Bool
  pending_of (s, none) = (s, ok true)
  pending_of (s, some e) = (s, err (Approval.message e))

  abbrev pub legacy_of : State r → Option Approval.Error → State r × Result String Bool
  legacy_of s none = (s, ok false)
  legacy_of s (some e) = (s, err (Approval.message e))

  abbrev pub validate_required :
      Reviewed → Credentials → State r → Option Approval.Error → State r × Result String Bool
  validate_required v c s (some e) = (s, err (Approval.message e))
  validate_required v c s none =
      if not (requires_approval_for_class v.class)
      then (s, ok false)
      else if is_optional r.policy.mode
          && not (r.policy.legacy_token == "")
          && is_blank c.challenge_id
      then legacy_of s (Approval.validate_legacy_token r.policy c.approval_token)
      else if is_blank c.challenge_id && is_blank c.approval_token
      then (s, ok false)
      else pending_of (validate_challenge v c s)

  -- validateExternalApproval: `ok true` is a pending approval that has to be consumed
  unfoldable pub validate_external_approval :
      Reviewed → Credentials → State r → State r × Result String Bool
  validate_external_approval v c s = validate_required v c s (
      Approval.require_approval r.policy (requires_approval_for_class v.class) c.challenge_id
        c.approval_token)

  abbrev pub store_confirmed : State r → Confirm.Store × Bool → State r × Bool
  store_confirmed s (store, accepted) =
      (record s { confirms = store; ticks = suc s.ticks }, accepted)

  abbrev pub clock_before : State r → ℕ
  clock_before s = r.clock s.ticks

  -- runtime.confirm.Consume; an unknown token reads no clock, which the model reads all the same
  unfoldable pub consume_confirmation : Reviewed → Credentials → State r → State r × Bool
  consume_confirmation v c s = store_confirmed s (
      Confirm.consume r.hashing c.confirm_token (confirmation_binding_for v) (clock_before s)
        s.confirms)

  -- consumeExternalApproval
  unfoldable pub consume_external_approval :
      Bool → Reviewed → Credentials → State r → State r × Option Approval.Error
  consume_external_approval false v c s = (s, none)
  consume_external_approval true v c s = store_validated s (
      Approval.consume r.crypto c.challenge_id c.approval_token r.policy.secret
        (approval_binding_for v) (clock_before s) s.approvals)

  abbrev pub gate_consumed : Reviewed → State r × Option Approval.Error → State r × Option String
  gate_consumed v (s, some e) = (reject_with v (Approval.message e) s, some (Approval.message e))
  gate_consumed v (s, none) = (s, none)

  abbrev pub gate_confirmed :
      Bool → Reviewed → Credentials → State r × Bool → State r × Option String
  gate_confirmed pending v c (s, false) =
      (reject_with v "confirmation token is invalid" s, some "confirmation token is invalid")
  gate_confirmed pending v c (s, true) = gate_consumed v (consume_external_approval pending v c s)

  abbrev pub gate_approved :
      Reviewed → Credentials → State r × Result String Bool → State r × Option String
  gate_approved v c (s, err message) = (reject_with v message s, some message)
  gate_approved v c (s, ok pending) = gate_confirmed pending v c (consume_confirmation v c s)

  -- The tokens of a reviewed action; `some` is the message that ends the handler.
  unfoldable pub check_tokens : Reviewed → Credentials → State r → State r × Option String
  check_tokens v c s = gate_approved v c (validate_external_approval v c s)

  abbrev pub decision_for : Reviewed → Decision
  decision_for v = confirmed_action_decision r.client.capabilities v.action v.payload v.unsafe_mode

  abbrev pub decide : Reviewed → State r × Option String → State r × Option String
  decide v (s, some message) = (s, some message)
  decide v (s, none) =
      if not (decision_for v).allowed
      then (reject_with v (decision_for v).reason s, some (decision_for v).reason)
      else (s, none)

  -- The tokens, and then the policy.
  unfoldable pub check_confirmed : Reviewed → Credentials → State r → State r × Option String
  check_confirmed v c s = decide v (check_tokens v c s)
