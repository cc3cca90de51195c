-- ===== src/Server/Looks.antt =====
-- The tools that ask no policy, as one function of the call, and what they hand to the transport.
pub mod Asks
pub mod Safety
use outlook_agent.Prelude.{All, List, String, true, ℤ, ◌++◌, ◌≡◌}
use outlook_agent.Prelude.Text.{is_one_of}
use outlook_agent.Cursor
use outlook_agent.Manifest
use outlook_agent.Catalogue.Classes.{ungated_actions}
use outlook_agent.Server.{ActionRequest, Runtime, State}
use outlook_agent.Server.Reads.{
  CalendarFindTimeInput, CalendarWindowInput, auth_check, calendar_availability, calendar_find_time,
  calendar_list, create_draft, create_forward_draft, create_reply_all_draft, create_reply_draft,
  fetch_attachment, fetch_body, fetch_metadata, list_attachments, people_resolve, people_search,
  rules_list, settings_get,
}
use outlook_agent.Server.Search.{MailSearchInput, mail_search, mail_search_next}
use outlook_agent.Server.Bodies.{mail_audit_manifest_bodies, mail_fetch_bodies}

-- A call of a tool that only reads or drafts.
pub data Look : Type 0 where
  auth_checked : String → Look
  search : MailSearchInput → Look
  search_next : String → Look
  metadata : String → String → Look
  body : String → String → Look
  bodies : List String → ℤ → String → Look
  manifest_bodies : String → ℤ → String → Look
  attachments : String → String → Look
  one_attachment : String → String → String → Look
  draft : String → String → List String → String → Look
  reply : String → String → String → Look
  reply_all : String → String → String → Look
  forward : String → String → List String → String → Look
  rules : String → String → Look
  settings : String → String → Look
  people : String → String → Look
  person : String → String → Look
  events : CalendarWindowInput → Look
  free_windows : CalendarWindowInput → Look
  free_slots : CalendarFindTimeInput → Look

-- the request is for an action that a tool without a review may hand over
abbrev pub IsUngated : ActionRequest → Type 0
IsUngated q = is_one_of ungated_actions q.name ≡ true

-- From `s` to `t` the gate's state is left alone, and every request handed over directly since is for
-- such an action.
pub record OnlyAsks {r : Runtime} (s t : State r) : Type 0 where
  pub executed : t.executed ≡ s.executed
  pub audit : t.audit ≡ s.audit
  pub confirms : t.confirms ≡ s.confirms
  pub approvals : t.approvals ≡ s.approvals
  pub asked : List ActionRequest
  pub direct : t.direct ≡ s.direct ++ asked
  pub ungated : All IsUngated asked

module _ (r : Runtime) where
  -- the state after the call
  unfoldable pub look : Look → State r → State r
  look (auth_checked profile) s = (auth_check r profile s).1
  look (search i) s = (mail_search r i s).1
  look (search_next cursor) s = (mail_search_next r cursor s).1
  look (metadata id mailbox) s = (fetch_metadata r id mailbox s).1
  look (body id mailbox) s = (fetch_body r id mailbox s).1
  look (bodies ids max mailbox) s = (mail_fetch_bodies r ids max mailbox s).1
  look (manifest_bodies id max mailbox) s = (mail_audit_manifest_bodies r id max mailbox s).1
  look (attachments id mailbox) s = (list_attachments r id mailbox s).1
  look (one_attachment id part mailbox) s = (fetch_attachment r id part mailbox s).1
  look (draft subject content to mailbox) s = (create_draft r subject content to mailbox s).1
  look (reply id content mailbox) s = (create_reply_draft r id content mailbox s).1
  look (reply_all id content mailbox) s = (create_reply_all_draft r id content mailbox s).1
  look (forward id content to mailbox) s = (create_forward_draft r id content to mailbox s).1
  look (rules folder mailbox) s = (rules_list r folder mailbox s).1
  look (settings name mailbox) s = (settings_get r name mailbox s).1
  look (people query mailbox) s = (people_search r query mailbox s).1
  look (person query mailbox) s = (people_resolve r query mailbox s).1
  look (events i) s = (calendar_list r i s).1
  look (free_windows i) s = (calendar_availability r i s).1
  look (free_slots i) s = (calendar_find_time r i s).1
