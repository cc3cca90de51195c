-- ===== src/Server/Bodies.antt =====
-- The handlers of internal/mcpserver/server.go that fetch the bodies of explicit ids:
-- mailFetchBodiesHandler, mailAuditManifestBodiesHandler and their loop.
pub mod Counts
use outlook_agent.Prelude.{
  ok, Bool, List, Option, Result, String, [], err, false, if◌then◌else◌, leb, length, ltb, none,
  some, suc, take, true, ℤ, pos, negsuc, ℕ, ◌++◌, ◌==◌, ◌||◌, ◌∷◌,
}
use outlook_agent.Prelude.Text.{is_blank, trim_space}
use outlook_agent.Value.{as_text, end, field, get_field, text}
use outlook_agent.Manifest
use outlook_agent.Server.{ActionResponse, Runtime, State}
use outlook_agent.Server.Canonical.{non_empty_strings}
use outlook_agent.Server.Handlers.{with_mailbox}
use outlook_agent.Server.Reads.{data_of, run_direct}

abbrev pub max_batch_body_fetch : ℕ
max_batch_body_fetch = 50

-- MailFetchBodyItemOutput
pub record BodyItem : Type 0 where
  pub id : String
  pub ok : Bool
  pub body_text : String
  pub error : String

-- MailFetchBodiesOutput
pub record MailFetchBodiesOutput : Type 0 where
  pub attempted : ℕ
  pub succeeded : ℕ
  pub failed : ℕ
  pub results : List BodyItem

pub record MailAuditManifestBodiesOutput : Type 0 where
  pub manifest_id : String
  pub action : String
  pub batch : MailFetchBodiesOutput

abbrev pub manifest_missing : String
manifest_missing =
    "mutation manifest is missing or expired; rerun metadata search and build an explicit id list"

unfoldable pub fetch_limit : ℤ → ℕ
fetch_limit (negsuc n) = max_batch_body_fetch
fetch_limit (pos max) =
    if leb max 0 || ltb max_batch_body_fetch max then max_batch_body_fetch else max

-- the ids that fetchBodies asks for
unfoldable pub fetch_ids : List String → ℤ → List String
unfolding fetch_limit
fetch_ids ids max = if ltb (fetch_limit max) (length ids) then take (fetch_limit max) ids else ids

module _ (r : Runtime) where
  unfoldable pub body_item : String → ActionResponse → BodyItem
  body_item id response =
      if response.ok
      then (record {
        id = id;
        ok = true;
        body_text = as_text (get_field "body_text" (data_of response.fields));
        error = "";
      })
      else (record { id = id; ok = false; body_text = ""; error = r.redact_text response.error })

  -- an item appended to the output, and counted
  unfoldable pub add_item : BodyItem → MailFetchBodiesOutput → MailFetchBodiesOutput
  add_item item output =
      if item.ok
      then (record output {
        succeeded = suc output.succeeded;
        results = output.results ++ item ∷ [];
      })
      else (record output { failed = suc output.failed; results = output.results ++ item ∷ [] })

  -- the loop over the ids
  unfoldable pub fetch_each :
      String → List String → MailFetchBodiesOutput × State r → MailFetchBodiesOutput × State r
  unfolding run_direct body_item add_item
  fetch_each mailbox [] p = p
  fetch_each mailbox (id ∷ ids) (output, s) =
      let (response, s') =
        run_direct r "mail.fetch_body" (with_mailbox (field "id" (text id) end) mailbox) s in
      fetch_each mailbox ids (add_item (body_item id response) output, s')

  abbrev pub empty_output : List String → MailFetchBodiesOutput
  empty_output ids = record { attempted = length ids; succeeded = 0; failed = 0; results = [] }

  abbrev pub fetch_all :
      List String → String → State r → Result String MailFetchBodiesOutput × State r
  fetch_all ids mailbox s =
      let (output, s') = fetch_each mailbox ids (empty_output ids, s) in (ok output, s')

  abbrev pub fetch_present :
      List String → ℤ → String → String → State r → Result String MailFetchBodiesOutput × State r
  fetch_present [] max mailbox message s = (err message, s)
  fetch_present (id ∷ ids) max mailbox message s = fetch_all (fetch_ids (id ∷ ids) max) mailbox s

  -- fetchBodies
  unfoldable pub fetch_bodies :
      List String → ℤ → String → String → State r → Result String MailFetchBodiesOutput × State r
  unfolding fetch_ids fetch_each
  fetch_bodies ids max mailbox message s =
      fetch_present (non_empty_strings ids) max mailbox message s

  -- mailFetchBodiesHandler
  unfoldable pub mail_fetch_bodies :
      List String → ℤ → String → State r → Result String MailFetchBodiesOutput × State r
  unfolding fetch_bodies
  mail_fetch_bodies ids max mailbox s =
      fetch_bodies ids max mailbox "outlook.mail_fetch_bodies requires ids" s

  abbrev pub audited_batch :
      Manifest.Record
      → Result String MailFetchBodiesOutput × State r
      → Result String MailAuditManifestBodiesOutput × State r
  audited_batch m (err message, s) = (err message, s)
  audited_batch m (ok batch, s) =
      (ok (record { manifest_id = m.id; action = m.action; batch = batch }), s)

  abbrev pub audit_found :
      ℤ
      → String
      → State r
      → Manifest.Store × Option Manifest.Record
      → Result String MailAuditManifestBodiesOutput × State r
  audit_found max mailbox s (store, none) =
      (err manifest_missing, record s { manifests = store; ticks = suc s.ticks })
  audit_found max mailbox s (store, some m) = audited_batch m (
      fetch_bodies m.ids max (if mailbox == "" then m.mailbox else mailbox)
        "mutation manifest has no ids" (record s { manifests = store; ticks = suc s.ticks }))

  -- mailAuditManifestBodiesHandler
  unfoldable pub mail_audit_manifest_bodies :
      String → ℤ → String → State r → Result String MailAuditManifestBodiesOutput × State r
  unfolding fetch_bodies
  mail_audit_manifest_bodies manifest_id max mailbox s =
      if is_blank manifest_id
      then (err "manifest_id required", s)
      else audit_found max (trim_space mailbox) s
          (Manifest.get (trim_space manifest_id) (r.clock s.ticks) s.manifests)
