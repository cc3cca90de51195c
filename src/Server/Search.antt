-- ===== src/Server/Search.antt =====
-- The search handlers of internal/mcpserver/server.go: mailSearchHandler, mailSearchNextHandler and
-- the cursors that they issue. A count is the text of its JSON number.
pub mod Pages
use outlook_agent.Prelude.{
  Bool, Option, Result, String, err, false, if◌then◌else◌, none, not, ok, some, suc, true, ◌==◌,
}
use outlook_agent.Prelude.Text.{is_blank, trim_space}
use outlook_agent.Value.{Fields, Items, Value, as_text, bool, end, field, get_field, number, text}
use outlook_agent.Cursor
use outlook_agent.Server.{
  ActionResponse, Runtime, State, search_cursor_lease_ttl, search_cursor_ttl,
}
use outlook_agent.Server.Handlers.{with_mailbox}
use outlook_agent.Server.Reads.{as_items, data_of, redacted, run_direct, transport_response_error}

pub record MailSearchInput : Type 0 where
  pub query : String
  pub folder : String
  pub mailbox : String

pub record MailSearchOutput : Type 0 where
  pub messages : Items
  pub returned : String
  pub limit : String
  pub truncated : Bool
  pub next_cursor : String
  pub next_link : String

pub data SearchError : Type 0 where
  -- the transport's error, redacted
  refused : String → SearchError
  -- an error of the cursor store
  no_cursor : Cursor.Error → SearchError
  -- "cursor lease expired or was superseded"
  superseded : SearchError

-- boolMetadata
abbrev pub bool_metadata : Value → Bool
bool_metadata (bool b) = b
bool_metadata v = false

unfoldable pub supports_cursor_pagination : String → Bool
supports_cursor_pagination name = name == "graph"

module _ (r : Runtime) where
  -- intMetadata
  abbrev pub int_metadata : Value → String
  int_metadata (number n) = r.to_int n
  int_metadata v = "0"

  abbrev pub page_of : ActionResponse → MailSearchOutput
  page_of response = record {
    messages = as_items (get_field "messages" (redacted r response));
    returned = int_metadata (get_field "returned" (redacted r response));
    limit = int_metadata (get_field "limit" (redacted r response));
    truncated = bool_metadata (get_field "truncated" (redacted r response));
    next_cursor = "";
    next_link = "";
  }

  abbrev pub raw_next_link : ActionResponse → String
  raw_next_link response = as_text (get_field "next_link" (data_of response.fields))

  abbrev pub issued_cursor :
      State r → Cursor.Store × Option String → Result Cursor.Error String × State r
  issued_cursor s (store, some id) =
      (ok id, record s { cursors = store; ticks = suc s.ticks; draws = suc s.draws })
  issued_cursor s (store, none) =
      (err Cursor.random, record s { cursors = store; ticks = suc s.ticks; draws = suc s.draws })

  -- issueSearchCursorFromBinding
  unfoldable pub issue_search_cursor_from_binding :
      Cursor.Binding → String → State r → Result Cursor.Error String × State r
  issue_search_cursor_from_binding b next_link s =
      if is_blank next_link
      then (ok "", s)
      else issued_cursor s (
          Cursor.issue (r.random s.draws) b r.client.name next_link search_cursor_ttl
            (r.clock s.ticks) s.cursors)

  abbrev pub search_binding : MailSearchInput → Cursor.Binding
  search_binding i = record {
    transport = r.client.name;
    profile = r.profile;
    action = "mail.search";
    mailbox = trim_space i.mailbox;
    query = i.query;
    query_hash =
        r.payload_fingerprint (field "query" (text i.query) (field "folder" (text i.folder) end));
  }

  -- issueSearchCursor
  unfoldable pub issue_search_cursor :
      MailSearchInput → String → State r → Result Cursor.Error String × State r
  unfolding issue_search_cursor_from_binding supports_cursor_pagination
  issue_search_cursor i next_link s =
      if not (supports_cursor_pagination r.client.name)
      then (ok "", s)
      else issue_search_cursor_from_binding (search_binding i) next_link s

  abbrev pub with_cursor :
      ActionResponse
      → Result Cursor.Error String × State r
      → Result SearchError MailSearchOutput × State r
  with_cursor response (ok id, s) = (
    ok (record (page_of response) {
      next_cursor = id;
      next_link = if r.expose_next_link then raw_next_link response else "";
    }),
    s,
  )
  with_cursor response (err e, s) = (err (no_cursor e), s)

  -- the output of a response, with a cursor for the next page if the response names one
  abbrev pub page_out :
      ActionResponse
      → (State r → Result Cursor.Error String × State r)
      → State r
      → Result SearchError MailSearchOutput × State r
  page_out response issue s =
      if raw_next_link response == ""
      then (ok (page_of response), s)
      else with_cursor response (issue s)

  abbrev pub search_answered :
      MailSearchInput
      → ActionResponse
      → State r
      → Option String
      → Result SearchError MailSearchOutput × State r
  search_answered i response s (some message) = (err (refused message), s)
  search_answered i response s none =
      page_out response (issue_search_cursor i (raw_next_link response)) s

  abbrev pub searched :
      MailSearchInput → ActionResponse × State r → Result SearchError MailSearchOutput × State r
  searched i (response, s) = search_answered i response s (transport_response_error r response)

  -- mailSearchHandler
  unfoldable pub mail_search :
      MailSearchInput → State r → Result SearchError MailSearchOutput × State r
  unfolding run_direct
  mail_search i s = searched i (
      run_direct r "mail.search"
        (with_mailbox (field "query" (text i.query) (field "folder" (text i.folder) end)) i.mailbox)
        s)

  abbrev pub search_scope : Cursor.Scope
  search_scope = record { transport = r.client.name; profile = r.profile; action = "mail.search" }

  abbrev pub next_payload : Cursor.Record → Fields
  next_payload c = field "next_link" (text c.next_link) (field "query" (text c.binding.query) end)

  -- runtime.cursors.RollbackLease, whose answer the handler drops
  abbrev pub rolled_back : Cursor.Lease → State r → State r
  rolled_back l s = record s {
    cursors = (Cursor.rollback_lease l (r.clock s.ticks) s.cursors).0;
    ticks = suc s.ticks;
  }

  abbrev pub committed :
      Cursor.Lease
      → ActionResponse
      → State r
      → Cursor.Store × Bool
      → Result SearchError MailSearchOutput × State r
  committed l response s (store, false) =
      (err superseded, record s { cursors = store; ticks = suc s.ticks })
  committed l response s (store, true) =
      page_out response (issue_search_cursor_from_binding l.leased.binding (raw_next_link response))
        (record s { cursors = store; ticks = suc s.ticks })

  abbrev pub answered :
      Cursor.Lease
      → ActionResponse
      → State r
      → Option String
      → Result SearchError MailSearchOutput × State r
  answered l response s (some message) = (err (refused message), rolled_back l s)
  answered l response s none =
      committed l response s (Cursor.commit_lease l (r.clock s.ticks) s.cursors)

  abbrev pub fetched :
      Cursor.Lease → ActionResponse × State r → Result SearchError MailSearchOutput × State r
  fetched l (response, s) = answered l response s (transport_response_error r response)

  abbrev pub leased :
      State r
      → Cursor.Store × Cursor.Result Cursor.Lease
      → Result SearchError MailSearchOutput × State r
  leased s (store, Cursor.err e) =
      (err (no_cursor e), record s { cursors = store; ticks = suc s.ticks; draws = suc s.draws })
  leased s (store, Cursor.ok l) = fetched l (
      run_direct r "mail.search_next" (next_payload l.leased)
        (record s { cursors = store; ticks = suc s.ticks; draws = suc s.draws }))

  -- mailSearchNextHandler
  unfoldable pub mail_search_next : String → State r → Result SearchError MailSearchOutput × State r
  unfolding run_direct
  mail_search_next cursor s = leased s (
      Cursor.lease_scoped (r.random s.draws) search_scope cursor search_cursor_lease_ttl
        (r.clock s.ticks) s.cursors)
