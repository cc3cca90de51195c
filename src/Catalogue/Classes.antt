-- ===== src/Catalogue/Classes.antt =====
-- The classes that the transports' tables give to the actions of the tools that ask no policy.
use outlook_agent.Prelude.{
  All, Any, Bool, Bool-cases, List, String, [], any, arith, eq→path, false, inl, inr, not, refl,
  true, ◌==◌, ◌||◌, ◌∷◌, ◌≡◌,
}
use outlook_agent.Prelude.Text.{is_one_of}
use outlook_agent.Policy.{SafetyClass, evaluate}
use outlook_agent.Action.{Definition}
use outlook_agent.Server.Targets.{safety_class_for}
use outlook_agent.Catalogue.{ews_capabilities, fake_actions, graph_capabilities, owa_capabilities}

-- the actions that the handlers which only read or draft hand to the transport
abbrev pub ungated_actions : List String
ungated_actions =
    "mail.search" ∷ "mail.search_next" ∷ "mail.fetch_metadata" ∷ "mail.fetch_body"
    ∷ "mail.list_attachments" ∷ "mail.fetch_attachment" ∷ "mail.create_draft"
    ∷ "mail.create_reply_draft" ∷ "mail.create_reply_all_draft" ∷ "mail.create_forward_draft"
    ∷ "mail.rules.list" ∷ "mailbox.settings.get" ∷ "people.search" ∷ "people.resolve"
    ∷ "calendar.list" ∷ "calendar.availability" ∷ "calendar.find_time" ∷ []

-- Direct use of a class, with a target named, and neither an intent nor a confirmation.
unfoldable pub runs_directly : SafetyClass → Bool
runs_directly c =
    (evaluate (record {
      class = c;
      explicit_target = true;
      explicit_intent = false;
      unsafe_mode = false;
      sends_message = false;
    })).allowed

unfoldable pub is_announced : List Definition → String → Bool
is_announced table name = any (λ d. d.name == name) table

-- The table does not name the action, or the policy lets its class run with no confirmation and no
-- stated intent once the caller has named the target.
unfoldable pub is_harmless : List Definition → String → Bool
unfolding is_announced
is_harmless table name =
    not (is_announced table name) || runs_directly (safety_class_for table name)

-- the four tables
abbrev pub tables : List (List Definition)
tables = graph_capabilities ∷ owa_capabilities ∷ ews_capabilities ∷ fake_actions ∷ []

-- one of the tables names the action
abbrev pub is_known : String → Bool
is_known name = any (λ table. is_announced table name) tables

abbrev all_harmless : List Definition → Bool
all_harmless table = not (any (λ name. not (is_harmless table name)) ungated_actions)

any-none :
    (p : String → Bool) (names : List String) (name : String)
    → any (λ n. not (p n)) names ≡ false
    → is_one_of names name ≡ true
    → p name ≡ true
any-none p [] name h e = ground arith
any-none p (n ∷ names) name h e = elim (Bool-cases (name == n)) [
  | inl same ↦ rw (eq→path name n same) (ground arith)
  | inr apart ↦ any-none p names name (ground arith) (ground arith)
]

known-all_harmless :
    (table : List Definition) (ts : List (List Definition))
    → All (λ t. all_harmless t ≡ true) ts
    → Any (λ t. table ≡ t) ts
    → all_harmless table ≡ true
known-all_harmless table [] all k = elim k [ ]
known-all_harmless table (t ∷ ts) all (Any.here e) = rw e all.0
known-all_harmless table (t ∷ ts) all (Any.there k) = known-all_harmless table ts all.1 k

tables-all_harmless : All (λ table. all_harmless table ≡ true) tables
unfolding is_harmless is_announced runs_directly safety_class_for evaluate
tables-all_harmless = (refl, (refl, (refl, (refl, tt))))

names-are_known : any (λ name. not (is_known name)) ungated_actions ≡ false
unfolding is_announced
names-are_known = refl

-- An action that a tool without a review hands over is one that some of the four transports announces.
pub ungated-is_known :
    (name : String) → is_one_of ungated_actions name ≡ true → is_known name ≡ true
ungated-is_known name listed = any-none is_known ungated_actions name names-are_known listed

-- In each of the four transports' tables, an action that a tool without a review hands over is
-- missing or has a class that the policy allows directly once the target is named.
pub ungated-is_harmless :
    (table : List Definition) (name : String)
    → Any (λ t. table ≡ t) tables
    → is_one_of ungated_actions name ≡ true
    → is_harmless table name ≡ true
ungated-is_harmless table name known listed =
    any-none (is_harmless table) ungated_actions name
      (ground (arith, known-all_harmless table tables tables-all_harmless known)) listed
