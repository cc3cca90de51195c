-- ===== src/Policy.antt =====
-- internal/policy/policy.go
pub mod Laws
use outlook_agent.Prelude.{Bool, true, false, not, String, List, [], ◌∷◌, map, if◌then◌else◌}

pub data SafetyClass : Type 0 where
  read_metadata read_body_explicit read_attachment_explicit draft_only : SafetyClass
  reversible_single_item reversible_bulk destructive send_like : SafetyClass
  settings_or_rules unknown : SafetyClass
  -- any other string
  other : String → SafetyClass

-- string(class)
unfoldable pub to_string : SafetyClass → String
to_string read_metadata = "read_metadata"
to_string read_body_explicit = "read_body_explicit"
to_string read_attachment_explicit = "read_attachment_explicit"
to_string draft_only = "draft_only"
to_string reversible_single_item = "reversible_single_item"
to_string reversible_bulk = "reversible_bulk"
to_string destructive = "destructive"
to_string send_like = "send_like"
to_string settings_or_rules = "settings_or_rules"
to_string unknown = "unknown"
to_string (other s) = s

unfoldable pub ordered_safety_classes : List SafetyClass
ordered_safety_classes =
    read_metadata ∷ read_body_explicit ∷ read_attachment_explicit ∷ draft_only
    ∷ reversible_single_item ∷ reversible_bulk ∷ destructive ∷ send_like ∷ settings_or_rules
    ∷ unknown ∷ []

unfoldable pub safety_class_names : List String
unfolding ordered_safety_classes to_string
safety_class_names = map to_string ordered_safety_classes

pub record Request : Type 0 where
  pub class : SafetyClass
  pub explicit_target : Bool
  pub explicit_intent : Bool
  pub unsafe_mode : Bool
  pub sends_message : Bool

pub record Decision : Type 0 where
  pub allowed : Bool
  pub requires_dry_run : Bool
  pub requires_confirmation : Bool
  pub requires_unsafe : Bool
  pub reason : String

-- Decision{Allowed: true}
abbrev pub allow : Decision
allow = record {
  allowed = true;
  requires_dry_run = false;
  requires_confirmation = false;
  requires_unsafe = false;
  reason = "";
}

abbrev pub deny : Bool → Bool → Bool → String → Decision
deny dry_run confirmation unsafe reason = record {
  allowed = false;
  requires_dry_run = dry_run;
  requires_confirmation = confirmation;
  requires_unsafe = unsafe;
  reason = reason;
}

abbrev dispatch : SafetyClass → Request → Decision
dispatch read_metadata r = allow
dispatch read_body_explicit r =
    if not r.explicit_target then deny false true false "explicit target required" else allow
dispatch read_attachment_explicit r =
    if not r.explicit_target then deny false true false "explicit target required" else allow
dispatch draft_only r =
    if r.sends_message then deny false true false "draft-only action cannot send" else allow
dispatch reversible_single_item r =
    if not r.explicit_intent then deny false true false "explicit intent required" else allow
dispatch reversible_bulk r =
    deny true true false "bulk reversible action requires dry-run confirmation"
dispatch destructive r =
    deny true true true "destructive action requires unsafe dry-run confirmation"
dispatch send_like r = deny false true false "send-like action requires exact confirmation"
dispatch settings_or_rules r = deny true true false "settings or rules action requires review"
dispatch unknown r = deny true true true "unknown action requires unsafe dry-run confirmation"
dispatch (other _) r = deny false false true "unrecognized safety class"

unfoldable pub evaluate : Request → Decision
evaluate r = dispatch r.class r

abbrev dispatch_confirmed : SafetyClass → Request → Decision
dispatch_confirmed reversible_single_item r = allow
dispatch_confirmed reversible_bulk r = allow
dispatch_confirmed send_like r = allow
dispatch_confirmed settings_or_rules r = allow
dispatch_confirmed unknown r =
    if r.unsafe_mode
    then allow
    else deny true true true "unknown action requires unsafe dry-run confirmation"
dispatch_confirmed destructive r =
    if r.unsafe_mode
    then allow
    else deny true true true "destructive action requires unsafe dry-run confirmation"
dispatch_confirmed c r = dispatch c r

unfoldable pub evaluate_confirmed : Request → Decision
evaluate_confirmed r = dispatch_confirmed r.class r
