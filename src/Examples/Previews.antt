-- ===== src/Examples/Previews.antt =====
-- Concrete runs of the theorems on previews, on the bearer token, on the headers of raw requests and on configurations: a
-- JSON text with a body that a preview must not show, a stored credential that has expired, a header that a
-- caller may name, and a URL with userinfo.
use outlook_agent.Prelude.{
  Option, ◌↔◌, String, true, ◌∷◌, [], List, if◌then◌else◌, none, ok, refl, some, ◌==◌, ◌≡◌,
}
use outlook_agent.Prelude.Text.{contains_one, drop_letter, to_lower, trim_space}
use outlook_agent.Value.{Value, end, field, object, text}
use outlook_agent.Url.{Parser, Url}
use outlook_agent.Config.{contains_inline_secret}
use outlook_agent.Config.Secrets.{Holds, Secret}
use outlook_agent.Config.Precise.{contains_inline_secret_iff}
use outlook_agent.Review.{
  PreviewHost, is_sensitive_review_key, redacted_preview, truncated_preview,
  strip_sensitive_review_fields,
}
use outlook_agent.Review.Shown.{Step, only_if, stripped, reach, is_shown, redacted_preview_shows}
use outlook_agent.Graph.RawRequest.{raw_graph_headers, header_fields, is_reserved, request_headers}
use outlook_agent.Graph.RawRequest.Bearer.{FoldsCase, IsOwn, raw_headers-IsOwn}
use outlook_agent.Graph.Token.{TokenHost, TokenState, bearer_token, Credential}
use outlook_agent.Graph.Token.Usable.{IsGood, bearer_token-IsGood}

abbrev letter : Value
letter = object (field "subject" (text "hi") (field "body" (text "hidden") end))

abbrev shown_letter : Value
shown_letter = object (field "subject" (text "hi") end)

abbrev two_texts : PreviewHost
two_texts = record {
  decode =
      λ s. if s == "letter" then some letter else if s == "shown" then some shown_letter else none;
  encode = λ v. some "shown";
  redact_assignments = λ s. s;
  redact_tags = λ s. s;
}

is_stripped : strip_sensitive_review_fields letter ≡ shown_letter
unfolding strip_sensitive_review_fields is_sensitive_review_key contains_one to_lower drop_letter
is_stripped = refl

redacted_preview_shows_example :
    (redacted_preview two_texts "letter" 4 ≡ truncated_preview "shown" 4)
    × ((path : List Step)
        → reach path (two_texts.decode "shown")
          ≡ only_if (is_shown path) (stripped (reach path (two_texts.decode "letter"))))
unfolding trim_space strip_sensitive_review_fields is_sensitive_review_key contains_one to_lower
    drop_letter
redacted_preview_shows_example =
    redacted_preview_shows two_texts "letter" "shown" 4 letter refl refl refl

abbrev old_credential : Credential
old_credential = record {
  token_type = "Bearer";
  access_token = "old";
  refresh_token = "renew";
  expires_at = "then";
  scope = "";
}

abbrev oauth : TokenHost
oauth = record {
  World = Unit;
  now = λ w. (400_000_000_000, w);
  get_secret = some (λ w. (ok "{old}", w));
  put_secret = some (λ c w. (none, w));
  decode = λ s. ok old_credential;
  parse_time = λ s. some 500_000_000_000;
  format_time = λ t. "later";
  exchange = λ token w. (
    ok (record {
      status = 200;
      token_type = "Bearer";
      access_token = "new";
      refresh_token = "";
      scope = "";
      expires_in = 0;
      error_code = "";
    }),
    w,
  );
  client_id = "client";
  decimal = λ n. "200";
}

abbrev not_cached : TokenState oauth
not_cached = record { world = tt; cached = none }

bearer_token-IsGood_example : IsGood oauth (bearer_token oauth not_cached)
bearer_token-IsGood_example = bearer_token-IsGood oauth not_cached tt

abbrev lower_case : String → String
lower_case k = to_lower (trim_space k)

lower_case-FoldsCase : FoldsCase lower_case
lower_case-FoldsCase k j e = e

abbrev preference : Value
preference = object (field "Prefer" (text "respond-async") end)

accepts : raw_graph_headers preference ≡ ok (("Prefer", "respond-async") ∷ [])
unfolding raw_graph_headers header_fields is_reserved to_lower trim_space
accepts = refl

raw_headers-IsOwn_example :
    IsOwn lower_case lower_case-FoldsCase "secret"
      (request_headers lower_case "secret" true (("Prefer", "respond-async") ∷ []))
raw_headers-IsOwn_example =
    raw_headers-IsOwn lower_case lower_case-FoldsCase preference (("Prefer", "respond-async") ∷ [])
      "secret" true accepts

abbrev site : Url
site = record {
  scheme = "https";
  host = "host";
  hostname = "host";
  port = "";
  has_user = true;
  escaped_path = "";
  raw_query = "";
  fragment = "";
  spelling = "https://me@host";
}

abbrev parse_site : Parser
parse_site raw = if raw == "https://me@host" then some site else none

abbrev no_keys : String → Option (List String)
no_keys s = some []

abbrev settings : Value
settings = object (field "profiles" (object (field "base_url" (text "https://me@host") end)) end)

contains_inline_secret_iff_example :
    (contains_inline_secret parse_site no_keys settings [] ≡ true) ↔ (
      (w : Value) × (path : List String) × Holds w settings path × Secret parse_site no_keys w path)
contains_inline_secret_iff_example = contains_inline_secret_iff parse_site no_keys settings
