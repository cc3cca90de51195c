-- ===== src/Server.antt =====
-- internal/mcpserver/server.go: the review gate in front of a transport. `Runtime` holds what stays
-- fixed while the server runs (the transport client, the profile, the approval policy), with the
-- digests and the clock; `State` what its handlers change. The clock and the random source are
-- streams that are read in order.
pub mod Targets
pub mod Canonical
pub mod Gate
pub mod Tokens
pub mod Execute
pub mod Handlers
pub mod Mutations
pub mod Calendar
pub mod Safety
pub mod Permits
pub mod Calls
pub mod DryRun
pub mod Replay
pub mod RoundTrip
pub mod Refusals
pub mod Audits
pub mod Trail
pub mod Reads
pub mod Search
pub mod Bodies
pub mod Capabilities
pub mod Looks
use outlook_agent.Prelude.{Bool, List, Option, String, ℕ}
use outlook_agent.Policy.{SafetyClass}
use outlook_agent.Action.{Definition}
use outlook_agent.Value.{Fields, Value}
use outlook_agent.Confirm
use outlook_agent.Approval
use outlook_agent.Manifest
use outlook_agent.Cursor

-- transport.ActionRequest
pub record ActionRequest : Type 0 where
  pub name : String
  pub payload : Fields
  pub unsafe_mode : Bool

-- transport.ActionResponse; a nil map is `none`
pub record ActionResponse : Type 0 where
  pub ok : Bool
  pub fields : Option Fields
  pub error : String

-- transport.ReviewPacket. `details` holds the parts that the server passes on and never reads: the
-- targets, the mutation, the mail, calendar and raw reviews.
pub record ReviewPacket : Type 0 where
  pub version : String
  pub transport : String
  pub action : String
  pub safety_class : String
  pub completeness : String
  pub warning_codes : List String
  pub details : Value
  pub payload_fingerprint : String
  pub limitations : List String

-- transport.DryRunSummary
pub record DryRunSummary : Type 0 where
  pub action : String
  pub count : ℕ
  pub reversible : Bool
  pub requires_confirmation : Bool
  pub review : Option ReviewPacket
  pub warnings : List String
  pub error : String

pub record AuthResult : Type 0 where
  pub ok : Bool
  pub principal : String
  pub error : String

-- The interface transport.Transport, over the state of the world outside.
pub record Transport : Type 1 where
  pub World : Type 0
  pub name : String
  pub capabilities : List Definition
  pub authenticate : String → World → AuthResult × World
  pub execute : ActionRequest → World → ActionResponse × World
  pub dry_run : ActionRequest → World → DryRunSummary × World

pub record Runtime : Type 1 where
  pub client : Transport
  pub profile : String
  pub policy : Approval.Policy
  pub hashing : Confirm.Hashing
  pub crypto : Approval.Crypto
  -- SHA-256 of the JSON encoding
  pub payload_fingerprint : Fields → String
  pub review_fingerprint : ReviewPacket → String
  -- redact.String
  pub redact_text : String → String
  -- the conversion of a number to an int, both as their JSON texts
  pub to_int : String → String
  -- os.Getenv("OUTLOOK_AGENT_EXPOSE_PROVIDER_NEXT_LINK") == "1"
  pub expose_next_link : Bool
  -- the n-th reading of the clock and of the random source
  pub clock : ℕ → ℕ
  pub random : ℕ → Option String

pub data EventType : Type 0 where
  dry_run confirm execute reject : EventType

-- audit.Event, less its time stamp
pub record Event : Type 0 where
  pub type : EventType
  pub transport : String
  pub profile : String
  pub action : String
  pub class : SafetyClass
  pub decision : String
  pub payload_fingerprint : String
  pub review_fingerprint : String
  pub count : ℕ
  pub error : String

-- `audit` lists the events recorded. `executed` and `direct` list the requests that the client was
-- given to execute, in order: `executed` by the handlers that review, confirm or classify, `direct`
-- by those that only read or draft, which ask no policy and record no event.
pub record State (r : Runtime) : Type 0 where
  pub world : r.client.World
  pub confirms : Confirm.Store
  pub approvals : Approval.Store
  pub manifests : Manifest.Store
  pub cursors : Cursor.Store
  pub audit : List Event
  pub executed : List ActionRequest
  pub direct : List ActionRequest
  pub ticks : ℕ
  pub draws : ℕ

-- approvalChallengeTTL and mutationManifestTTL, in nanoseconds
abbrev pub approval_challenge_ttl : ℕ
approval_challenge_ttl = 600_000_000_000

abbrev pub mutation_manifest_ttl : ℕ
mutation_manifest_ttl = 1_800_000_000_000

-- searchCursorLeaseTTL, and the lifetime of a cursor in issueSearchCursorFromBinding
abbrev pub search_cursor_lease_ttl : ℕ
search_cursor_lease_ttl = 120_000_000_000

abbrev pub search_cursor_ttl : ℕ
search_cursor_ttl = 1_800_000_000_000
