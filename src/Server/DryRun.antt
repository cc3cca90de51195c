-- ===== src/Server/DryRun.antt =====
-- dryRunHandler: the review that issues a confirmation token and, where the host requires it, an
-- approval challenge.
use outlook_agent.Prelude.{
  ok, Bool, List, Option, Result, String, [], err, false, if◌then◌else◌, none, not, some, suc, true,
  ℕ, ◌&&◌, ◌==◌,
}
use outlook_agent.Prelude.Text.{is_blank}
use outlook_agent.Value.{Fields}
use outlook_agent.Confirm
use outlook_agent.Approval
use outlook_agent.Approval.{
  Challenge, Mode, Store, is_optional, is_required, issue, message, random, required,
}
use outlook_agent.Server.{
  DryRunSummary, EventType, ReviewPacket, Runtime, State, approval_challenge_ttl,
}
use outlook_agent.Server.Canonical.{canonical_action_payload}
use outlook_agent.Server.Gate.{
  Reviewed, approval_binding_for, confirmation_binding_for, decision_for, dry_run_review_for,
  record_audit, reject_with,
}
use outlook_agent.Server.Handlers.{early_reason, profile_or_default, unreviewed}
use outlook_agent.Server.Targets.{requires_approval_for_class}

-- DryRunInput
pub record DryRunInput : Type 0 where
  pub action : String
  pub payload : Fields
  pub unsafe_mode : Bool
  pub profile : String

-- DryRunApprovalOutput; the two fields that only a challenge sets are constants
pub record DryRunApproval : Type 0 where
  pub mode : Mode
  pub required_for_this_action : Bool
  pub challenge_issued : Bool
  pub legacy_token_accepted : Bool
  pub host_integration_required : Bool

-- DryRunOutput
pub record DryRunOutput : Type 0 where
  pub action : String
  pub ok : Bool
  pub count : ℕ
  pub reversible : Bool
  pub requires_confirmation : Bool
  pub requires_unsafe : Bool
  pub requires_approval : Bool
  pub confirmation_token : String
  pub approval_challenge : Option Approval.Challenge
  pub approval : Option DryRunApproval
  pub review : ReviewPacket
  pub warnings : List String
  pub error : String

abbrev pub is_issued : Option Approval.Challenge → Bool
is_issued none = false
is_issued (some c) = true

module _ (r : Runtime) where
  -- requiresApproval
  abbrev pub requires_approval : Reviewed → Bool
  requires_approval v = is_required r.policy.mode && requires_approval_for_class v.class

  -- dryRunApprovalInfo
  unfoldable pub dry_run_approval_info : Bool → Option Approval.Challenge → DryRunApproval
  dry_run_approval_info needed challenge = record {
    mode = r.policy.mode;
    required_for_this_action = needed;
    challenge_issued = is_issued challenge;
    legacy_token_accepted = is_optional r.policy.mode && not (is_blank r.policy.legacy_token);
    host_integration_required = needed && is_required r.policy.mode;
  }

  abbrev pub refused_early : String → Reviewed → State r → Result String DryRunOutput × State r
  refused_early message v s = (
    ok (record {
      action = v.action;
      ok = false;
      count = 0;
      reversible = false;
      requires_confirmation = false;
      requires_unsafe = false;
      requires_approval = false;
      confirmation_token = "";
      approval_challenge = none;
      approval = none;
      review = v.review;
      warnings = [];
      error = message;
    }),
    reject_with r v message s,
  )

  abbrev pub output_of :
      DryRunSummary
      → Reviewed
      → Bool
      → Bool
      → Bool
      → String
      → Option Approval.Challenge
      → String
      → DryRunOutput
  output_of summary v done confirmation unsafe token challenge message = record {
    action = summary.action;
    ok = done;
    count = summary.count;
    reversible = summary.reversible;
    requires_confirmation = confirmation;
    requires_unsafe = unsafe;
    requires_approval = requires_approval v;
    confirmation_token = token;
    approval_challenge = challenge;
    approval = some (dry_run_approval_info (requires_approval v) challenge);
    review = v.review;
    warnings = summary.warnings;
    error = message;
  }

  abbrev pub allowed_with :
      DryRunSummary
      → Reviewed
      → String
      → Option Approval.Challenge
      → State r
      → Result String DryRunOutput × State r
  allowed_with summary v token challenge s = (
    ok (
        output_of summary v true summary.requires_confirmation (decision_for r v).requires_unsafe
          token challenge ""),
    record_audit r EventType.dry_run v "allowed" "" s,
  )

  abbrev pub challenged :
      DryRunSummary
      → Reviewed
      → String
      → State r
      → Approval.Store × Option Approval.Challenge
      → Result String DryRunOutput × State r
  challenged summary v token s (store, none) = (
    err "random source failed",
    record s { approvals = store; ticks = suc s.ticks; draws = suc s.draws },
  )
  challenged summary v token s (store, some challenge) =
      allowed_with summary v token (some challenge)
        (record s { approvals = store; ticks = suc s.ticks; draws = suc s.draws })

  abbrev pub tokened :
      DryRunSummary
      → Reviewed
      → State r
      → Confirm.Store × Option String
      → Result String DryRunOutput × State r
  tokened summary v s (store, none) = (
    err "random source failed",
    record s { confirms = store; ticks = suc s.ticks; draws = suc s.draws },
  )
  tokened summary v s (store, some token) =
      let s' : State r = record s { confirms = store; ticks = suc s.ticks; draws = suc s.draws } in
      if not (requires_approval v)
      then allowed_with summary v token none s'
      else challenged summary v token s' (
          Approval.issue r.crypto (r.random s'.draws) (approval_binding_for r v)
            approval_challenge_ttl (r.clock s'.ticks) s'.approvals)

  abbrev pub dry_run_reviewed :
      DryRunSummary × Reviewed × State r → Result String DryRunOutput × State r
  dry_run_reviewed (summary, v, s) =
      if not (summary.error == "")
      then (
        ok (
            output_of summary v false summary.requires_confirmation false "" none
              (r.redact_text summary.error)),
        reject_with r v (r.redact_text summary.error) s,
      )
      else if not (decision_for r v).allowed
      then (
        ok (
            output_of summary v false true (decision_for r v).requires_unsafe "" none
              (decision_for r v).reason),
        reject_with r v (decision_for r v).reason s,
      )
      else tokened summary v s (
          Confirm.generate r.hashing (r.random s.draws) (confirmation_binding_for r v)
            approval_challenge_ttl (r.clock s.ticks) s.confirms)

  abbrev pub dry_run_canonical :
      DryRunInput → State r → Fields × String → Result String DryRunOutput × State r
  dry_run_canonical i s (payload, reason) =
      let profile = profile_or_default r i.profile in
      if not (early_reason r i.action reason == "")
      then refused_early (r.redact_text (early_reason r i.action reason))
          (unreviewed r i.action payload i.unsafe_mode profile) s
      else dry_run_reviewed (dry_run_review_for r i.action payload i.unsafe_mode profile s)

  -- dryRunHandler; `err` is the Go error of a failing random source
  unfoldable pub dry_run_handler : DryRunInput → State r → Result String DryRunOutput × State r
  dry_run_handler i s = dry_run_canonical i s (canonical_action_payload i.action i.payload)
