-- ===== src/Server/Looks/Safety.antt =====
-- What the tools that ask no policy hand to the transport.
use outlook_agent.Prelude.{All, Any, List, String, [], refl, true, ◌++◌, ◌∷◌, ◌≡◌}
use outlook_agent.Prelude.Text.{trim_space, is_blank}
use outlook_agent.Cursor
use outlook_agent.Manifest
use outlook_agent.Value.{end, field, text}
use outlook_agent.Server.Handlers.{profile_or_default, with_mailbox}
use outlook_agent.Catalogue.Classes.{
  is_harmless, is_known, tables, ungated-is_harmless, ungated-is_known,
}
use outlook_agent.Server.{ActionRequest, Runtime, State, search_cursor_lease_ttl}
use outlook_agent.Server.Reads.{
  auth_check, calendar_availability, calendar_find_time, calendar_list, create_draft,
  create_forward_draft, create_reply_all_draft, create_reply_draft, fetch_attachment, fetch_body,
  fetch_metadata, list_attachments, people_resolve, people_search, rules_list, run_direct,
  settings_get,
}
use outlook_agent.Server.Search.{mail_search, mail_search_next, search_scope}
use outlook_agent.Server.Bodies.{mail_audit_manifest_bodies, mail_fetch_bodies}
use outlook_agent.Server.Looks.{
  IsUngated, Look, OnlyAsks, attachments, auth_checked, bodies, body, draft, events, forward,
  free_slots, free_windows, look, manifest_bodies, metadata, one_attachment, people, person, reply,
  reply_all, rules, search, search_next, settings,
}
use outlook_agent.Server.Looks.Asks.{
  OnlyAsks-if, OnlyAsks-none, OnlyAsks-one, OnlyAsks-refl, audit_found-OnlyAsks,
  fetch_bodies-OnlyAsks, leased-OnlyAsks, searched_run-OnlyAsks,
}

module _ (r : Runtime) where
  auth_check-OnlyAsks : (profile : String) (s : State r) → OnlyAsks s (auth_check r profile s).1
  unfolding auth_check
  auth_check-OnlyAsks profile s =
      let ran = r.client.authenticate (profile_or_default r profile) s.world in
      OnlyAsks-none r ran.1 s.cursors s.manifests s.ticks s.draws s

  pub look-OnlyAsks : (k : Look) (s : State r) → OnlyAsks s (look r k s)
  unfolding look run_direct fetch_metadata fetch_body list_attachments fetch_attachment create_draft
      create_reply_draft create_reply_all_draft create_forward_draft rules_list settings_get
      people_search people_resolve calendar_list calendar_availability calendar_find_time
      mail_search mail_search_next mail_fetch_bodies mail_audit_manifest_bodies
  look-OnlyAsks (auth_checked profile) s = auth_check-OnlyAsks profile s
  look-OnlyAsks (search i) s =
      searched_run-OnlyAsks r i
        (with_mailbox (field "query" (text i.query) (field "folder" (text i.folder) end)) i.mailbox)
        s
  look-OnlyAsks (search_next cursor) s = leased-OnlyAsks r s (
      Cursor.lease_scoped (r.random s.draws) (search_scope r) cursor search_cursor_lease_ttl
        (r.clock s.ticks) s.cursors)
  look-OnlyAsks (metadata id mailbox) s = OnlyAsks-one r _ _ s refl
  look-OnlyAsks (body id mailbox) s = OnlyAsks-one r _ _ s refl
  look-OnlyAsks (bodies ids max mailbox) s =
      fetch_bodies-OnlyAsks r ids max mailbox "outlook.mail_fetch_bodies requires ids" s
  look-OnlyAsks (manifest_bodies id max mailbox) s =
      OnlyAsks-if r (is_blank id) s _ _ (OnlyAsks-refl r s) (
        audit_found-OnlyAsks r max (trim_space mailbox) s
          (Manifest.get (trim_space id) (r.clock s.ticks) s.manifests))
  look-OnlyAsks (attachments id mailbox) s = OnlyAsks-one r _ _ s refl
  look-OnlyAsks (one_attachment id part mailbox) s = OnlyAsks-one r _ _ s refl
  look-OnlyAsks (draft subject content to mailbox) s = OnlyAsks-one r _ _ s refl
  look-OnlyAsks (reply id content mailbox) s = OnlyAsks-one r _ _ s refl
  look-OnlyAsks (reply_all id content mailbox) s = OnlyAsks-one r _ _ s refl
  look-OnlyAsks (forward id content to mailbox) s = OnlyAsks-one r _ _ s refl
  look-OnlyAsks (rules folder mailbox) s = OnlyAsks-one r _ _ s refl
  look-OnlyAsks (settings name mailbox) s = OnlyAsks-one r _ _ s refl
  look-OnlyAsks (people query mailbox) s = OnlyAsks-one r _ _ s refl
  look-OnlyAsks (person query mailbox) s = OnlyAsks-one r _ _ s refl
  look-OnlyAsks (events i) s = OnlyAsks-one r _ _ s refl
  look-OnlyAsks (free_windows i) s = OnlyAsks-one r _ _ s refl
  look-OnlyAsks (free_slots i) s = OnlyAsks-one r _ _ s refl

  -- some transport announces the action of the request, and if the runtime's does, the policy lets its
  -- class run directly
  abbrev pub IsHarmless : ActionRequest → Type 0
  IsHarmless q = (is_known q.name ≡ true) × (is_harmless r.client.capabilities q.name ≡ true)

  module _ (known : Any (λ t. r.client.capabilities ≡ t) tables) where
    ungated-AreHarmless : (qs : List ActionRequest) → All IsUngated qs → All IsHarmless qs
    ungated-AreHarmless [] h = tt
    ungated-AreHarmless (q ∷ qs) h = (
      (ungated-is_known q.name h.0, ungated-is_harmless r.client.capabilities q.name known h.0),
      ungated-AreHarmless qs h.1,
    )

    -- With the Graph, OWA or EWS transport or the test double, a tool that only reads or drafts
    -- executes nothing through the gate, records no audit event, and leaves the confirmation tokens
    -- and the approval challenges as they are. Each request that it hands to the transport is for
    -- an action that at least one of these transports announces, and if this one announces it, then
    -- under a class that the policy lets run directly once the target is named.
    pub look_only_asks :
        (k : Look) (s : State r)
        → ((look r k s).executed ≡ s.executed)
          × ((look r k s).audit ≡ s.audit)
          × ((look r k s).confirms ≡ s.confirms)
          × ((look r k s).approvals ≡ s.approvals)
          × ((asked : List ActionRequest) × ((look r k s).direct ≡ s.direct ++ asked)
              × All IsHarmless asked)
    look_only_asks k s =
        let h = look-OnlyAsks k s in
        (
          h.executed,
          h.audit,
          h.confirms,
          h.approvals,
          (h.asked, h.direct, ungated-AreHarmless h.asked h.ungated),
        )
