-- ===== src/Approval/Modes.antt =====
-- internal/approval/approval.go: the mode that a host gets from its environment.
use outlook_agent.Prelude.{String, arith, eq_iff, inl, inr, ◌≡◌, ◌≢◌, ◌⊎◌}
use outlook_agent.Prelude.Text.{to_lower, trim_space}
use outlook_agent.Approval.{Mode, default_mode_for_transport, parse_mode, policy_from_env, required}

-- the value without outer spaces and in lower case
abbrev pub normalized : String → String
normalized value = to_lower (trim_space value)

-- the transports that stand for no mailbox
abbrev pub IsTestTransport : String → Type 0
IsTestTransport transport =
    (normalized transport ≡ "fake")
    ⊎ (normalized transport ≡ "test")
    ⊎ (normalized transport ≡ "capture")
    ⊎ (normalized transport ≡ "failing")

parse_mode-required :
    (value : String) (fallback : Mode)
    → parse_mode value fallback ≢ required
    → (normalized value ≡ "dev") ⊎ (normalized value ≡ "optional") ⊎ (fallback ≢ required)
unfolding parse_mode
parse_mode-required value fallback h =
    ground (arith, eq_iff (normalized value) "dev", eq_iff (normalized value) "optional")

default_mode-required :
    (transport : String)
    → default_mode_for_transport transport ≢ required
    → IsTestTransport transport
unfolding default_mode_for_transport
default_mode-required transport h = ground (
  arith,
  eq_iff (normalized transport) "fake",
  eq_iff (normalized transport) "test",
  eq_iff (normalized transport) "capture",
  eq_iff (normalized transport) "failing",
)

-- Approvals are required unless the environment names the mode dev or optional, or the transport is
-- one of those for tests: any other value of the variable, misspelt or empty, does not weaken them.
pub policy_from_env-required :
    (transport : String) (getenv : String → String)
    → (policy_from_env transport getenv).mode ≢ required
    → (normalized (getenv "OUTLOOK_AGENT_APPROVAL_MODE") ≡ "dev")
      ⊎ (normalized (getenv "OUTLOOK_AGENT_APPROVAL_MODE") ≡ "optional")
      ⊎ IsTestTransport transport
unfolding policy_from_env
policy_from_env-required transport getenv h =
    elim (parse_mode-required (getenv "OUTLOOK_AGENT_APPROVAL_MODE")
      (default_mode_for_transport transport) h) [
        | inl named ↦ inl named
        | inr (inl named) ↦ inr (inl named)
        | inr (inr weak) ↦ inr (inr (default_mode-required transport weak))
      ]
