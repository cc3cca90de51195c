-- ===== src/Examples/Mailboxes.antt =====
-- Concrete runs of the theorems on the Graph transport and on redirects.
use outlook_agent.Prelude.{
  Bool, List, Result, String, [], err, false, if◌then◌else◌, length, ltb, map, none, ok, refl, some,
  take, true, ℕ, ◌++ˢ◌, ◌+◌, ◌==◌, ◌∷◌, ◌≡◌, ◌≤◌,
}
use outlook_agent.Prelude.Text.{trim_space}
use outlook_agent.Policy.{reversible_single_item}
use outlook_agent.Value.{Fields, array, bool, cons, end, field, get_field, lookup_field, nil, text}
use outlook_agent.Approval.{dev}
use outlook_agent.Server.{Runtime, Transport}
use outlook_agent.Server.Canonical.{non_empty_strings}
use outlook_agent.Server.Execute.{move_like_mutation_action}
use outlook_agent.Server.Targets.{
  count_explicit_target_value, is_reversible_message_mutation_action, safety_class_for,
  safety_class_for_payload,
}
use outlook_agent.Catalogue.{graph_capabilities}
use outlook_agent.Url.{Parser, Request, Url, check_redirect, same_origin, some_unsafe}
use outlook_agent.Url.Redirects.{Followed, StayHome, first, Followed-StayHome, onward}
use outlook_agent.Graph.Links.{is_allowed_calendar_view_next_path}
use outlook_agent.Graph.Messages.{Host, move_messages, patch_messages}
use outlook_agent.Graph.Runs.{Ran, failed_id, move_one, patch_one}
use outlook_agent.Graph.Manifests.{
  Splits, batch-Splits, drawn, listed, manifest_lists_changed, patched_list,
}
use outlook_agent.Graph.Pages.{Page, max_pages, read_all}
use outlook_agent.Graph.Pages.Walks.{Reads, read_all-Reads}
use outlook_agent.Graph.Payload.{message_ids, reversible_class_for_count}
use outlook_agent.Graph.Reviews.{
  dry_run_mutation, message_target, reversible_mutation_review, summary_of, target_items,
}
use outlook_agent.Graph.Reviews.Counts.{dry_run_shows, limit, packet_targets}
use outlook_agent.Graph.Single.{single_acts_on_one}

-- a mailbox in which only the message "gone" cannot be changed
abbrev graph : Host
graph = record {
  World = ℕ;
  move = λ mailbox id destination n.
      (if id == "gone" then err "graph returned HTTP 404" else ok (id ++ˢ "-moved"), n + 1);
  patch =
      λ mailbox id change n. (if id == "gone" then err "graph returned HTTP 404" else ok id, n + 1);
  quote = λ s. s;
  decimal = λ n. "n";
}

abbrev ids : List String
ids = "m1" ∷ "gone" ∷ "m2" ∷ []

abbrev unflag : Fields
unflag = field "isRead" (bool true) end

batch-Splits_example :
    let moved = (move_messages graph "" ids "archive" 0).0 in
    let patched = (patch_messages graph "" ids unflag 0).0 in
    Splits ids moved.succeeded (map failed_id moved.failed)
    × Splits ids patched.succeeded (map failed_id patched.failed)
batch-Splits_example = batch-Splits graph "" ids "archive" unflag 0

abbrev idle : Transport
idle = record {
  World = ℕ;
  name = "graph";
  capabilities = graph_capabilities;
  authenticate = λ p n. (record { ok = true; principal = p; error = "" }, n);
  execute = λ q n. (record { ok = true; fields = none; error = "" }, n);
  dry_run = λ q n. (
    record {
      action = q.name;
      count = 1;
      reversible = true;
      requires_confirmation = true;
      review = none;
      warnings = [];
      error = "";
    },
    n,
  );
}

abbrev server : Runtime
server = record {
  client = idle;
  profile = "work";
  policy = record { mode = dev; secret = ""; legacy_token = "" };
  hashing = record { marshal = λ b. some b.action; digest = λ s. s };
  crypto = record { mac = λ secret payload. secret; encode = λ s. s; format_time = λ t. "t" };
  payload_fingerprint = λ p. "p";
  review_fingerprint = λ p. "r";
  redact_text = λ s. s;
  to_int = λ s. s;
  expose_next_link = false;
  clock = λ n. n;
  random = λ n. some "token";
}

manifest_lists_changed_example :
    let moved = move_messages graph "" ids "archive" 0 in
    let patched = patch_messages graph "" ids unflag 0 in
    let moves = move_like_mutation_action "mail.archive" in
    (done : List String) × (news : List String) × (missed : List String) × Ran
      (if moves then move_one graph "" "archive" else patch_one graph "" unflag)
      ids
      0
      done
      news
      missed
      (if moves then moved else patched).1
    × (drawn graph server "mail.archive" end (if moves then moved else patched).0
        ≡ (if moves then listed graph news else patched_list graph done missed))
manifest_lists_changed_example =
    manifest_lists_changed graph server "mail.archive" end "" ids "archive" unflag 0

abbrev one_id : Fields
one_id = field "ids" (array (cons (text "m1") (cons (text " ") nil))) end

is_mutation : is_reversible_message_mutation_action "mail.archive" ≡ true
unfolding is_reversible_message_mutation_action
is_mutation = refl

is_single :
    safety_class_for_payload graph_capabilities "mail.archive" one_id ≡ reversible_single_item
unfolding safety_class_for_payload safety_class_for count_explicit_target_value get_field
    lookup_field trim_space
is_single = refl

single_acts_on_one_example : length (non_empty_strings (message_ids one_id)) ≤ 1
single_acts_on_one_example =
    single_acts_on_one graph_capabilities "mail.archive" one_id is_mutation is_single

abbrev base : Url
base = record {
  scheme = "https";
  host = "graph.microsoft.com";
  hostname = "graph.microsoft.com";
  port = "";
  has_user = false;
  escaped_path = "/v1.0";
  raw_query = "";
  fragment = "";
  spelling = "https://graph.microsoft.com/v1.0";
}

-- a parser that knows one page
abbrev parse_view : Parser
parse_view raw = some (record base { escaped_path = "/v1.0/me/calendarView"; spelling = raw })

-- every page names another one
abbrev endless : String → ℕ → Result String (Page String) × ℕ
endless url n = (ok (record { items = url ∷ []; next_link = "https://next" }), n + 1)

read_all-Reads_example :
    Reads parse_view base ℕ endless is_allowed_calendar_view_next_path max_pages "https://first" []
      (record { world = 0; asked = [] })
      (read_all parse_view base ℕ endless is_allowed_calendar_view_next_path "https://first"
        (record { world = 0; asked = [] }))
read_all-Reads_example =
    read_all-Reads parse_view base ℕ endless is_allowed_calendar_view_next_path "https://first"
      (record { world = 0; asked = [] })

abbrev service : Request
service = record { url = base; query_keys = "X-OWA-CANARY" ∷ []; canary = "c" }

abbrev elsewhere : Request
elsewhere = record {
  url = record base { hostname = "login.example.com" };
  query_keys = [];
  canary = "";
}

abbrev always : Request → List Request → Bool
always q via = true

follows : check_redirect always service (elsewhere ∷ []) ≡ none
unfolding check_redirect some_unsafe same_origin
follows = refl

follows_home : check_redirect always service (elsewhere ∷ service ∷ []) ≡ none
unfolding check_redirect some_unsafe same_origin
follows_home = refl

walk : Followed always (elsewhere ∷ service ∷ service ∷ [])
walk =
    onward service (elsewhere ∷ service ∷ [])
      (onward service (elsewhere ∷ []) (first elsewhere) follows) follows_home

Followed-StayHome_example :
    (length (elsewhere ∷ service ∷ service ∷ []) ≤ 10)
    × StayHome (elsewhere ∷ service ∷ service ∷ [])
Followed-StayHome_example = Followed-StayHome always (elsewhere ∷ service ∷ service ∷ []) walk

abbrev two_ids : Fields
two_ids = field "ids" (array (cons (text "m1") (cons (text "m2") nil))) end

are_two : message_ids two_ids ≡ "m1" ∷ "m2" ∷ []
unfolding message_ids get_field lookup_field
are_two = refl

abbrev print : Fields → String
print fs = "p"

abbrev decimal : ℕ → String
decimal n = "n"

dry_run_shows_example :
    let class = reversible_class_for_count 2 in
    let review =
      reversible_mutation_review print decimal "mail.archive" two_ids ("m1" ∷ "m2" ∷ []) class in
    (dry_run_mutation print decimal "mail.archive" two_ids
      ≡ summary_of print decimal "mail.archive" 2 (ltb 1 2) review review.limitations)
    × (packet_targets review.details
        ≡ array (target_items (map message_target (take limit ("m1" ∷ "m2" ∷ [])))))
    × (review.completeness ≡ (if ltb limit 2 then "partial" else "complete"))
dry_run_shows_example = dry_run_shows print decimal "mail.archive" two_ids "m1" ("m2" ∷ []) are_two
