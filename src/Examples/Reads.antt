-- ===== src/Examples/Reads.antt =====
-- Concrete runs of the theorems on the tools that read, search and redact.
use outlook_agent.Prelude.{
  ℤ, pos, All, Any, Bool, Bool-cases, List, String, [], arith, err, false, if◌then◌else◌, inl, inr,
  none, ok, path→eq, refl, some, suc, take, true, ℕ, ◌++◌, ◌∷◌, ◌≡◌, ◌≢◌, ◌≤◌,
}
use outlook_agent.Prelude.Text.{contains, is_space, trim_left, trim_right, trim_space}
use outlook_agent.Table.{insert, lookup}
use outlook_agent.Value.{
  as_text, Value, array, cons, end, field, get_field, lookup_field, nil, object, text,
}
use outlook_agent.Redact
use outlook_agent.Redact.Sound.{IsClean, value-IsClean}
use outlook_agent.Catalogue.{graph_capabilities}
use outlook_agent.Catalogue.Classes.{tables}
use outlook_agent.Cursor
use outlook_agent.Confirm
use outlook_agent.Approval
use outlook_agent.Manifest
use outlook_agent.Approval.{dev}
use outlook_agent.Server.{ActionRequest, Runtime, State, Transport}
use outlook_agent.Server.Canonical.{non_empty_strings}
use outlook_agent.Server.Reads.{run_direct, transport_response_error}
use outlook_agent.Server.Search.{MailSearchOutput, mail_search_next, refused, search_scope}
use outlook_agent.Server.Search.Pages.{failed_page_keeps_cursor, page_uses_cursor}
use outlook_agent.Server.Bodies.{
  MailFetchBodiesOutput, add_item, body_item, fetch_bodies, fetch_each, fetch_ids, fetch_limit,
}
use outlook_agent.Server.Bodies.Counts.{IsLimit, IsTally, fetch_bodies-IsTally}
use outlook_agent.Server.Looks.{look, search_next}
use outlook_agent.Server.Looks.Safety.{IsHarmless, look_only_asks}

-- a mailbox that answers every request with one page, or fails every request
abbrev mailbox : Bool → Transport
mailbox up = record {
  World = ℕ;
  name = "graph";
  capabilities = graph_capabilities;
  authenticate = λ p n. (record { ok = true; principal = p; error = "" }, n);
  execute = λ q n. (
    record { ok = up; fields = some (field "body_text" (text "hello") end); error = "down" },
    suc n,
  );
  dry_run = λ q n. (
    record {
      action = q.name;
      count = 1;
      reversible = true;
      requires_confirmation = true;
      review = none;
      warnings = [];
      error = "";
    },
    n,
  );
}

abbrev server : Bool → Runtime
server up = record {
  client = mailbox up;
  profile = "work";
  policy = record { mode = dev; secret = ""; legacy_token = "" };
  hashing = record { marshal = λ b. some b.action; digest = λ s. s };
  crypto = record { mac = λ secret payload. secret; encode = λ s. s; format_time = λ t. "t" };
  payload_fingerprint = λ p. "p";
  review_fingerprint = λ p. "r";
  redact_text = λ s. s;
  to_int = λ s. s;
  expose_next_link = false;
  clock = λ n. n;
  random = λ n. some "lease";
}

abbrev page : Cursor.Record
page = record {
  binding = record {
    transport = "graph";
    profile = "work";
    action = "mail.search";
    mailbox = "";
    query = "q";
    query_hash = "h";
  };
  provider = "graph";
  next_link = "n";
  expires_at = 100;
}

abbrev one_page : (up : Bool) → State (server up)
one_page up = record {
  world = 0;
  confirms = Confirm.new_store;
  approvals = Approval.new_store;
  manifests = Manifest.new_store;
  cursors = record { records = ("k", page) ∷ []; leases = [] };
  audit = [];
  executed = [];
  direct = [];
  ticks = 0;
  draws = 0;
}

is_down : (mail_search_next (server false) "k" (one_page false)).0 ≡ err (refused "down")
unfolding mail_search_next run_direct Cursor.lease_scoped Cursor.has_active_lease lookup trim_space
    trim_left trim_right is_space transport_response_error Cursor.rollback_lease
is_down = refl

stored : lookup "k" (one_page false).cursors.records ≡ some page
unfolding lookup
stored = refl

failed_page_keeps_cursor_example :
    (Cursor.lease_scoped
      (some "b")
      (search_scope (server false))
      "k"
      30
      50
      (mail_search_next (server false) "k" (one_page false)).1.cursors).1
    ≡ Cursor.ok (record { cursor_id = "k"; lease_id = "b"; leased = page })
failed_page_keeps_cursor_example =
    failed_page_keeps_cursor (server false) "k" (one_page false) "down" page "b" 30 50 is_down
      stored (omega arith)

abbrev last_page : MailSearchOutput
last_page = record {
  messages = nil;
  returned = "0";
  limit = "0";
  truncated = false;
  next_cursor = "";
  next_link = "";
}

is_last : (mail_search_next (server true) "k" (one_page true)).0 ≡ ok last_page
unfolding mail_search_next run_direct Cursor.lease_scoped Cursor.has_active_lease lookup
    transport_response_error Cursor.commit_lease Redact.value insert as_text get_field lookup_field
is_last = refl

abbrev used_cursor : String
used_cursor = "k"

apart : used_cursor ≢ last_page.next_cursor
apart e = ground (arith, path→eq used_cursor last_page.next_cursor e)

page_uses_cursor_example :
    ((c : Cursor.Record) × (lookup "k" (one_page true).cursors.records ≡ some c))
    × (lookup "k" (mail_search_next (server true) "k" (one_page true)).1.cursors.records ≡ none)
page_uses_cursor_example =
    page_uses_cursor (server true) "k" (one_page true) last_page is_last apart

known : Any (λ t. (server true).client.capabilities ≡ t) tables
known = Any.here refl

look_only_asks_example :
    let t = look (server true) (search_next "k") (one_page true) in
    (t.executed ≡ [])
    × (t.audit ≡ [])
    × (t.confirms ≡ Confirm.new_store)
    × (t.approvals ≡ Approval.new_store)
    × ((asked : List ActionRequest) × (t.direct ≡ [] ++ asked)
        × All (IsHarmless (server true)) asked)
look_only_asks_example = look_only_asks (server true) known (search_next "k") (one_page true)

abbrev asked_for : ℤ
asked_for = pos 2

abbrev two_bodies : MailFetchBodiesOutput
two_bodies = record {
  attempted = 2;
  succeeded = 2;
  failed = 0;
  results =
      record { id = "a"; ok = true; body_text = "hello"; error = "" }
      ∷ record { id = "b"; ok = true; body_text = "hello"; error = "" }
      ∷ [];
}

abbrev ids : List String
ids = "a" ∷ " " ∷ " b" ∷ "c" ∷ []

are_fetched :
    (fetch_bodies (server true) ids asked_for "" "no ids" (one_page true)).0 ≡ ok two_bodies
unfolding fetch_bodies fetch_ids fetch_each fetch_limit non_empty_strings trim_space run_direct
    body_item add_item get_field lookup_field as_text
are_fetched = refl

fetch_bodies-IsTally_example :
    (limit : ℕ) × IsLimit (server true) asked_for limit
    × IsTally
        (server true)
        ""
        (take limit (non_empty_strings ids))
        (one_page true)
        (fetch_bodies (server true) ids asked_for "" "no ids" (one_page true)).1
        two_bodies
    × (two_bodies.attempted ≤ limit)
fetch_bodies-IsTally_example =
    fetch_bodies-IsTally (server true) ids asked_for "" "no ids" (one_page true) two_bodies
      are_fetched

-- a replacement that blanks every text that names a key
abbrev blank_key : String → String
blank_key s = if contains "key=" s then "" else s

abbrev HasNoKey : String → Type 0
HasNoKey s = contains "key=" s ≡ false

blank_key-HasNoKey : (s : String) → HasNoKey (blank_key s)
unfolding contains
blank_key-HasNoKey s = elim (Bool-cases (contains "key=" s)) [ inl e ↦ rw e refl | inr e ↦ rw e e ]

marker-HasNoKey : HasNoKey Redact.marker
unfolding contains
marker-HasNoKey = refl

abbrev message : Value
message = object (
    field "subject" (text "see key=1")
      (field "parts" (array (cons (object (field "Body" (text "hi") end)) nil)) end))

value-IsClean_example : IsClean HasNoKey (Redact.value blank_key message)
value-IsClean_example = value-IsClean HasNoKey blank_key blank_key-HasNoKey marker-HasNoKey message
