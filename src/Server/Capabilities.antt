-- ===== src/Server/Capabilities.antt =====
-- What the server tells of its capabilities: capabilitiesHandler and approvalInfo of
-- internal/mcpserver/server.go.
use outlook_agent.Prelude.{Bool, List, String, map, not, ℕ, ◌&&◌}
use outlook_agent.Prelude.Text.{is_blank}
use outlook_agent.Action.{Definition}
use outlook_agent.Approval
use outlook_agent.Approval.{Mode, is_required}
use outlook_agent.Capability.{Detail, from_definition}
use outlook_agent.Server.{Runtime}
use outlook_agent.Server.Targets.{requires_approval_for_class}

abbrev pub compatibility_version : String
compatibility_version = "0.1"

-- ApprovalInfoOutput
pub record ApprovalInfo : Type 0 where
  pub mode : Mode
  pub high_risk_requires_approval : Bool
  pub secret_configured : Bool
  pub legacy_token_configured : Bool
  pub challenge_ttl_seconds : ℕ
  pub signing_payload_version : String
  pub host_integration_required : Bool

-- A Detail with its two approval fields, which FromDefinition leaves empty; `requires_approval` also
-- tells whether the mode is named.
pub record ApprovalDetail : Type 0 where
  pub detail : Detail
  pub requires_approval : Bool

pub record CapabilitiesOutput : Type 0 where
  pub compatibility_version : String
  pub actions : List String
  pub details : List ApprovalDetail
  pub approval : ApprovalInfo

module _ (r : Runtime) where
  -- approvalInfo
  unfoldable pub approval_info : ApprovalInfo
  approval_info = record {
    mode = r.policy.mode;
    high_risk_requires_approval = is_required r.policy.mode;
    secret_configured = not (is_blank r.policy.secret);
    legacy_token_configured = not (is_blank r.policy.legacy_token);
    challenge_ttl_seconds = 600;
    signing_payload_version = Approval.signing_payload_version;
    host_integration_required = is_required r.policy.mode;
  }

  abbrev pub action_name : Definition → String
  action_name d = d.name

  abbrev pub action_detail : Definition → ApprovalDetail
  action_detail d = record {
    detail = from_definition d;
    requires_approval = is_required r.policy.mode && requires_approval_for_class d.class;
  }

  -- capabilitiesHandler
  unfoldable pub capabilities : CapabilitiesOutput
  unfolding approval_info
  capabilities = record {
    compatibility_version = compatibility_version;
    actions = map action_name r.client.capabilities;
    details = map action_detail r.client.capabilities;
    approval = approval_info;
  }
