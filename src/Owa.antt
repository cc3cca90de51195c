-- ===== src/Owa.antt =====
-- internal/transport/owa/transport.go: the session of the Outlook-on-the-web transport. `Host` holds
-- what the code calls outside of this file: the clock, the secret store, Login, the sleep between
-- two logins, the HTTP round trip with the building of its request and the reading of its body, and
-- the JSON decoder.
pub mod Session
pub mod Service
pub mod Attempts
pub mod Retries
use outlook_agent.Prelude.{Bool, List, Option, Result, String, false, nat_eq, none, some, ℕ, ◌||◌}
use outlook_agent.Prelude.Text.{contains, has_prefix, to_lower, trim_space}
use outlook_agent.Value.{Fields}

-- an error of Login; `transient` is isTransientLoginError
pub record LoginError : Type 0 where
  pub message : String
  pub transient : Bool

-- a response and its body: the path of its request's URL, if it has one
pub record Reply : Type 0 where
  pub status : ℕ
  pub content_type : String
  pub path : Option String
  pub body : String

pub record Host : Type 1 where
  pub World : Type 0
  pub Password : Type 0
  pub Session : Type 0
  pub now : World → ℕ × World
  -- secrets.Get
  pub get_secret : World → Result String Password × World
  -- Login
  pub log_in : Password → World → Result LoginError Session × World
  -- loginRetryBackoff, which may fail
  pub back_off : ℕ → World → Option String × World
  -- the request for the action, built, sent and read
  pub send : Session → World → Result String Reply × World
  -- json.Unmarshal into a map
  pub decode : String → Result String Fields
  -- RawResponseEnvelope
  pub envelope : Reply → Fields
  -- fmt's %d
  pub decimal : ℕ → String
  -- loginRetries and sessionTTL
  pub login_retries : ℕ
  pub session_ttl : ℕ

-- cachedSession
pub record CachedSession (h : Host) : Type 0 where
  pub session : h.Session
  pub created_at : ℕ
  pub last_used_at : ℕ
  pub expires_at : ℕ

-- The transport's session, with the calls of Login and the requests sent, which are counted for the
-- theorems: `logins` is the number of calls, `sent` the sessions that requests went out with.
pub record State (h : Host) : Type 0 where
  pub world : h.World
  pub session : Option (CachedSession h)
  pub logins : ℕ
  pub sent : List h.Session

-- 20 minutes, in nanoseconds
abbrev pub default_session_ttl : ℕ
default_session_ttl = 1_200_000_000_000

abbrev is_auth_path : Option String → Bool
is_auth_path none = false
is_auth_path (some path) =
    contains "/owa/auth/" (to_lower path) || contains "/owa/auth.owa" (to_lower path)

-- isOWAAuthFailureResponse
unfoldable pub is_auth_failure : Reply → Bool
is_auth_failure reply =
    nat_eq reply.status 401
    || nat_eq reply.status 403
    || is_auth_path reply.path
    || contains "auth/logon.aspx" (to_lower reply.body)
    || contains "/owa/auth.owa" (to_lower reply.body)

unfoldable pub looks_like_json : Reply → Bool
looks_like_json reply =
    contains "json" (to_lower reply.content_type)
    || has_prefix "{" (trim_space reply.body)
    || has_prefix "[" (trim_space reply.body)
