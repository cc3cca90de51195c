-- ===== src/Capability.antt =====
-- internal/capability/detail.go
use outlook_agent.Prelude.{Bool, String, false, if◌then◌else◌, not, refl, true, ◌&&◌, ◌≡◌}
use outlook_agent.Policy.{
  Request, SafetyClass, destructive, draft_only, evaluate, evaluate_confirmed, other,
  read_attachment_explicit, read_body_explicit, read_metadata, reversible_bulk,
  reversible_single_item, send_like, settings_or_rules, to_string, unknown,
}
use outlook_agent.Action.{CoverageLevel, Definition}

pub record Detail : Type 0 where
  pub name : String
  pub transport : String
  pub safety_class : String
  pub level : CoverageLevel
  pub allowed_direct : Bool
  pub requires_dry_run : Bool
  pub requires_confirmation : Bool
  pub requires_unsafe : Bool
  pub requires_explicit_target : Bool
  pub requires_explicit_intent : Bool
  pub execution_route : String

unfoldable pub requires_explicit_target : SafetyClass → Bool
requires_explicit_target read_body_explicit = true
requires_explicit_target read_attachment_explicit = true
requires_explicit_target c = false

unfoldable pub requires_explicit_intent : SafetyClass → Bool
requires_explicit_intent reversible_single_item = true
requires_explicit_intent c = false

unfoldable pub execution_route : SafetyClass → String
execution_route read_metadata = "direct"
execution_route draft_only = "direct"
execution_route read_body_explicit = "direct_explicit_target"
execution_route read_attachment_explicit = "direct_explicit_target"
execution_route reversible_single_item = "direct_explicit_intent"
execution_route reversible_bulk = "dry_run_confirm"
execution_route send_like = "dry_run_confirm"
execution_route settings_or_rules = "dry_run_confirm"
execution_route c = "unsafe_dry_run_confirm"

abbrev pub class_request : SafetyClass → Request
class_request c = record {
  class = c;
  explicit_target = false;
  explicit_intent = false;
  unsafe_mode = false;
  sends_message = false;
}

unfoldable pub from_definition : Definition → Detail
from_definition d =
    let decision = evaluate (class_request d.class) in
    record {
      name = d.name;
      transport = d.transport;
      safety_class = to_string d.class;
      level = d.level;
      allowed_direct = decision.allowed;
      requires_dry_run = decision.requires_dry_run;
      requires_confirmation = decision.requires_confirmation;
      requires_unsafe = decision.requires_unsafe;
      requires_explicit_target = requires_explicit_target d.class;
      requires_explicit_intent = requires_explicit_intent d.class;
      execution_route = execution_route d.class;
    }

-- what the policy would say of the class, turned into a route
abbrev pub route_of_policy : SafetyClass → String
route_of_policy c =
    let ask = class_request c in
    if (evaluate ask).allowed
    then "direct"
    else if (evaluate (record ask { explicit_target = true })).allowed
    then "direct_explicit_target"
    else if (evaluate (record ask { explicit_intent = true })).allowed
    then "direct_explicit_intent"
    else if (evaluate_confirmed ask).allowed
    then "dry_run_confirm"
    else "unsafe_dry_run_confirm"

by_class :
    (c : SafetyClass)
    → (execution_route c ≡ route_of_policy c)
      × (requires_explicit_target c ≡ (
          not (evaluate (class_request c)).allowed
          && (evaluate (record (class_request c) { explicit_target = true })).allowed))
      × (requires_explicit_intent c ≡ (
          not (evaluate (class_request c)).allowed
          && (evaluate (record (class_request c) { explicit_intent = true })).allowed))
unfolding execution_route evaluate evaluate_confirmed requires_explicit_target
    requires_explicit_intent
by_class read_metadata = (refl, refl, refl)
by_class read_body_explicit = (refl, refl, refl)
by_class read_attachment_explicit = (refl, refl, refl)
by_class draft_only = (refl, refl, refl)
by_class reversible_single_item = (refl, refl, refl)
by_class reversible_bulk = (refl, refl, refl)
by_class destructive = (refl, refl, refl)
by_class send_like = (refl, refl, refl)
by_class settings_or_rules = (refl, refl, refl)
by_class unknown = (refl, refl, refl)
by_class (other s) = (refl, refl, refl)

-- The route that a capability advertises, from its own table of classes, is the one that the policy
-- enforces: direct if the policy allows the class as it is, else by an explicit target or intent if
-- that suffices, else by a dry run and a confirmation if a confirmed request is allowed, and
-- otherwise the unsafe route. What it needs explicitly is what changes the policy's answer.
pub execution_route_policy :
    (d : Definition)
    → ((from_definition d).execution_route ≡ route_of_policy d.class)
      × ((from_definition d).requires_explicit_target ≡ (
          not (evaluate (class_request d.class)).allowed
          && (evaluate (record (class_request d.class) { explicit_target = true })).allowed))
      × ((from_definition d).requires_explicit_intent ≡ (
          not (evaluate (class_request d.class)).allowed
          && (evaluate (record (class_request d.class) { explicit_intent = true })).allowed))
unfolding from_definition
execution_route_policy d = by_class d.class
