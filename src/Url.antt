-- ===== src/Url.antt =====
-- internal/transport/url_validation.go and internal/transport/redirect.go, with the redirect policy of
-- internal/transport/owa/transport.go. A parsed URL of net/url is a record; the parser, and
-- net.ParseIP with its loopback test, are parameters.
pub mod Redirects
use outlook_agent.Prelude.{
  Bool, List, Option, Result, String, [], err, false, if◌then◌else◌, length, ltb, none, not, ok,
  some, ◌&&◌, ◌==◌, ◌||◌, ◌∷◌,
}
use outlook_agent.Prelude.Text.{contains, equal_fold, to_lower, trim_space}

-- url.URL
pub record Url : Type 0 where
  pub scheme : String
  pub host : String
  pub hostname : String
  pub port : String
  pub has_user : Bool
  pub escaped_path : String
  pub raw_query : String
  pub fragment : String
  -- String()
  pub spelling : String

abbrev pub Parser : Type 0
Parser = String → Option Url

-- the port, or the default one of the scheme
unfoldable pub origin_port : Url → String
origin_port u =
    if not (u.port == "")
    then u.port
    else if to_lower u.scheme == "http"
    then "80"
    else if to_lower u.scheme == "https"
    then "443"
    else ""

-- SameOrigin of two URLs that are there
unfoldable pub same_origin : Url → Url → Bool
unfolding equal_fold origin_port
same_origin a b =
    equal_fold a.scheme b.scheme
    && equal_fold a.hostname b.hostname
    && origin_port a == origin_port b

pub data UrlError : Type 0 where
  unparsed not_absolute userinfo not_https : UrlError

module _ (parse : Parser) (is_loopback : String → Bool) where
  unfoldable pub is_local_http_url : Url → Bool
  is_local_http_url u =
      equal_fold u.scheme "http" && (equal_fold u.hostname "localhost" || is_loopback u.hostname)

  abbrev validated : Option Url → Result UrlError Url
  validated none = err unparsed
  validated (some u) =
      if u.scheme == "" || u.host == ""
      then err not_absolute
      else if u.has_user
      then err userinfo
      else if not (equal_fold u.scheme "https") && not (is_local_http_url u)
      then err not_https
      else ok u

  unfoldable pub validate_service_url : String → Result UrlError Url
  unfolding is_local_http_url
  validate_service_url raw = validated (parse (trim_space raw))

-- a request: its URL, the keys of its query, its canary header
pub record Request : Type 0 where
  pub url : Url
  pub query_keys : List String
  pub canary : String

unfoldable pub has_canary_key : List String → Bool
has_canary_key [] = false
has_canary_key (key ∷ keys) = contains "canary" (to_lower key) || has_canary_key keys

-- requestHasOWASessionMaterial
unfoldable pub has_session_material : Request → Bool
unfolding has_canary_key
has_session_material q = not (q.canary == "") || has_canary_key q.query_keys

pub data RedirectError : Type 0 where
  -- the client's own policy refused
  previous too_many unsafe : RedirectError

unfoldable pub some_unsafe : List Request → Request → Bool
unfolding has_session_material same_origin
some_unsafe [] q = false
some_unsafe (prior ∷ via) q =
    (has_session_material prior && not (same_origin prior.url q.url)) || some_unsafe via q

-- the CheckRedirect of withOWARedirectPolicy; `none` lets the redirect through
unfoldable pub check_redirect :
    (Request → List Request → Bool) → Request → List Request → Option RedirectError
unfolding some_unsafe
check_redirect allows q via =
    if not (allows q via)
    then some previous
    else if not (ltb (length via) 10)
    then some too_many
    else if some_unsafe via q
    then some unsafe
    else none
