-- ===== src/Approval.antt =====
-- internal/approval/approval.go: payload-bound challenges that the host signs. The clock reading
-- `now` and the random identifier are arguments; the keyed digest (HMAC-SHA256 under base64), the
-- base64 encoding and the time format are parameters. Times and lifetimes are nanoseconds.
pub mod Challenges
pub mod Modes
use outlook_agent.Prelude.{
  Bool, Option, Result, String, [], bool_eq, err, false, if◌then◌else◌, ltb, none, not, ok, some,
  true, ℕ, ◌&&◌, ◌++ˢ◌, ◌+◌, ◌==◌, ◌||◌,
}
use outlook_agent.Prelude.Text.{is_blank, to_lower, trim_space}
use outlook_agent.Table
use outlook_agent.Table.{Table, delete, insert, lookup}

pub data Mode : Type 0 where
  dev optional required : Mode

pub record Binding : Type 0 where
  pub action : String
  pub transport : String
  pub profile : String
  pub unsafe_mode : Bool
  pub payload_fingerprint : String
  pub review_fingerprint : String
  pub safety_class : String

pub record Challenge : Type 0 where
  pub id : String
  pub binding : Binding
  pub expires_at : ℕ
  pub issued_at : ℕ
  pub signing_payload_version : String
  pub signing_payload : String

pub record Policy : Type 0 where
  pub mode : Mode
  pub secret : String
  pub legacy_token : String

pub record Store : Type 0 where
  pub records : Table Challenge

abbrev pub new_store : Store
new_store = record { records = [] }

pub record Crypto : Type 0 where
  -- base64(hmac_sha256(secret, payload))
  pub mac : String → String → String
  -- base64 of a field
  pub encode : String → String
  -- UTC().Format(time.RFC3339Nano)
  pub format_time : ℕ → String

-- The errors, one for each message.
pub data Error : Type 0 where
  approval_required legacy_not_allowed legacy_required invalid expired mismatch : Error
  payload_mismatch secret_required payload_required token_invalid random : Error

unfoldable pub message : Error → String
message approval_required = "payload-bound external approval required"
message legacy_not_allowed = "legacy static approval token is not allowed in this approval mode"
message legacy_required = "legacy static approval token required"
message invalid = "approval challenge is invalid"
message expired = "approval challenge expired"
message mismatch = "approval challenge binding mismatch"
message payload_mismatch = "approval signing payload does not match challenge"
message secret_required = "approval secret required"
message payload_required = "approval signing payload required"
message token_invalid = "approval token is invalid"
message random = "random source failed"

abbrev pub signing_payload_version : String
signing_payload_version = "outlook-agent-approval-v1"

unfoldable pub parse_mode : String → Mode → Mode
parse_mode value fallback =
    let mode = to_lower (trim_space value) in
    if mode == "dev"
    then dev
    else if mode == "optional"
    then optional
    else if mode == "required"
    then required
    else fallback

unfoldable pub default_mode_for_transport : String → Mode
default_mode_for_transport transport =
    let normalized = to_lower (trim_space transport) in
    if normalized == "fake"
      || normalized == "test"
      || normalized == "capture"
      || normalized == "failing"
    then dev
    else required

unfoldable pub policy_from_env : String → (String → String) → Policy
policy_from_env transport getenv = record {
  mode = parse_mode (getenv "OUTLOOK_AGENT_APPROVAL_MODE") (default_mode_for_transport transport);
  secret = trim_space (getenv "OUTLOOK_AGENT_APPROVAL_SECRET");
  legacy_token = trim_space (getenv "OUTLOOK_AGENT_APPROVAL_TOKEN");
}

abbrev pub is_required : Mode → Bool
is_required required = true
is_required m = false

abbrev pub is_optional : Mode → Bool
is_optional optional = true
is_optional m = false

unfoldable pub require_approval : Policy → Bool → String → String → Option Error
require_approval p high_risk challenge_id token =
    if not high_risk || not (is_required p.mode)
    then none
    else if is_blank challenge_id || is_blank token
    then some approval_required
    else none

unfoldable pub validate_legacy_token : Policy → String → Option Error
validate_legacy_token p token =
    if not (is_optional p.mode)
    then some legacy_not_allowed
    else if is_blank p.legacy_token
        || is_blank token
        || not (trim_space token == trim_space p.legacy_token)
    then some legacy_required
    else none

abbrev bool_text : Bool → String
bool_text true = "true"
bool_text false = "false"

abbrev pub version_of : Challenge → String
version_of c =
    if is_blank c.signing_payload_version
    then signing_payload_version
    else trim_space c.signing_payload_version

unfoldable pub build_signing_payload : Crypto → Challenge → String
build_signing_payload k c =
    version_of c
    ++ˢ "\nid="
    ++ˢ c.id
    ++ˢ "\nissued_at="
    ++ˢ k.format_time c.issued_at
    ++ˢ "\nexpires_at="
    ++ˢ k.format_time c.expires_at
    ++ˢ "\naction="
    ++ˢ k.encode c.binding.action
    ++ˢ "\ntransport="
    ++ˢ k.encode c.binding.transport
    ++ˢ "\nprofile="
    ++ˢ k.encode c.binding.profile
    ++ˢ "\nunsafe_mode="
    ++ˢ bool_text c.binding.unsafe_mode
    ++ˢ "\nsafety_class="
    ++ˢ k.encode c.binding.safety_class
    ++ˢ "\npayload_fingerprint="
    ++ˢ to_lower c.binding.payload_fingerprint
    ++ˢ "\nreview_fingerprint="
    ++ˢ to_lower c.binding.review_fingerprint

unfoldable pub sign_payload : Crypto → String → String → Result Error String
sign_payload k secret payload =
    if is_blank secret
    then err secret_required
    else if payload == ""
    then err payload_required
    else ok (k.mac (trim_space secret) payload)

unfoldable pub sign_challenge : Crypto → String → Challenge → Result Error String
sign_challenge k secret c =
    let built = build_signing_payload k c in
    if is_blank c.signing_payload
    then sign_payload k secret built
    else if not (trim_space c.signing_payload == built)
    then err payload_mismatch
    else sign_payload k secret (trim_space c.signing_payload)

abbrev check_token : String → Result Error String → Option Error
check_token token (err e) = some e
check_token token (ok expected) =
    if is_blank token || not (trim_space token == expected) then some token_invalid else none

unfoldable pub validate_challenge_token : Crypto → String → Challenge → String → Option Error
unfolding sign_challenge sign_payload
validate_challenge_token k secret c token = check_token token (sign_challenge k secret c)

-- Go's `==` on two bindings
abbrev pub binding_eq : Binding → Binding → Bool
binding_eq a b =
    a.action == b.action
    && a.transport == b.transport
    && a.profile == b.profile
    && bool_eq a.unsafe_mode b.unsafe_mode
    && a.payload_fingerprint == b.payload_fingerprint
    && a.review_fingerprint == b.review_fingerprint
    && a.safety_class == b.safety_class

abbrev pub challenge_of : Crypto → String → Binding → ℕ → ℕ → Challenge
challenge_of k id b ttl now =
    let c : Challenge = record {
      id = id;
      binding = b;
      expires_at = now + ttl;
      issued_at = now;
      signing_payload_version = signing_payload_version;
      signing_payload = "";
    } in
    record c { signing_payload = build_signing_payload k c }

unfoldable pub issue : Crypto → Option String → Binding → ℕ → ℕ → Store → Store × Option Challenge
issue k none b ttl now s = (s, none)
issue k (some id) b ttl now s = (
  record { records = Table.insert id (challenge_of k id b ttl now) s.records },
  some (challenge_of k id b ttl now),
)

abbrev validate_found :
    Crypto
    → String
    → String
    → String
    → Binding
    → ℕ
    → Store
    → Option Challenge
    → Store × Option Error
validate_found k id token secret b now s none = (s, some invalid)
validate_found k id token secret b now s (some c) =
    if not (ltb now c.expires_at)
    then (record { records = Table.delete id s.records }, some expired)
    else if not (binding_eq c.binding b)
    then (s, some mismatch)
    else (s, validate_challenge_token k (trim_space secret) c token)

-- Validate, and validateLocked inside Consume
unfoldable pub validate :
    Crypto → String → String → String → Binding → ℕ → Store → Store × Option Error
validate k id token secret b now s =
    validate_found k id token secret b now s (Table.lookup id s.records)

abbrev consume_validated : String → Store × Option Error → Store × Option Error
consume_validated id (s, some e) = (s, some e)
consume_validated id (s, none) = (record { records = Table.delete id s.records }, none)

unfoldable pub consume :
    Crypto → String → String → String → Binding → ℕ → Store → Store × Option Error
consume k id token secret b now s = consume_validated id (validate k id token secret b now s)
