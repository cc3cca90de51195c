-- ===== src/Server/Looks/Asks.antt =====
-- The parts of the handlers that only read or draft: each asks only for ungated actions and leaves
-- the state of the gate alone.
use outlook_agent.Prelude.{
  All-append, Bool, List, Option, Result, String, [], ap, err, false, if◌then◌else◌, none, not, ok,
  refl, some, suc, sym, true, ℤ, ℕ, ◌++◌, ◌==◌, ◌∙◌, ◌∷◌,
}
use mathlib.Core.List.{append-nil, append_assoc}
use outlook_agent.Prelude.Text.{is_blank}
use outlook_agent.Cursor
use outlook_agent.Manifest
use outlook_agent.Value.{Fields}
use outlook_agent.Server.{ActionRequest, ActionResponse, Runtime, State, search_cursor_ttl}
use outlook_agent.Server.Canonical.{non_empty_strings}
use outlook_agent.Server.Reads.{run_direct, transport_response_error}
use outlook_agent.Server.Search.{
  MailSearchInput, answered, committed, issue_search_cursor, issue_search_cursor_from_binding,
  issued_cursor, leased, next_payload, page_out, raw_next_link, search_answered, search_binding,
  searched, supports_cursor_pagination, with_cursor,
}
use outlook_agent.Server.Bodies.{
  MailFetchBodiesOutput, audit_found, audited_batch, fetch_bodies, fetch_each, fetch_ids,
  fetch_present,
}
use outlook_agent.Server.Looks.{IsUngated, OnlyAsks}

module _ (r : Runtime) where
  -- one request
  pub OnlyAsks-one :
      (q : ActionRequest) (world : r.client.World) (s : State r)
      → IsUngated q
      → OnlyAsks s (record s { world = world; direct = s.direct ++ q ∷ [] })
  OnlyAsks-one q world s e = record {
    executed = refl;
    audit = refl;
    confirms = refl;
    approvals = refl;
    asked = q ∷ [];
    direct = refl;
    ungated = (e, tt);
  }

  -- the cursors and the streams change, or the manifests
  pub OnlyAsks-none :
      (world : r.client.World) (store : Cursor.Store) (manifests : Manifest.Store) (ticks draws : ℕ)
      (s : State r)
      → OnlyAsks s (record s {
        world = world;
        cursors = store;
        manifests = manifests;
        ticks = ticks;
        draws = draws;
      })
  OnlyAsks-none world store manifests ticks draws s = record {
    executed = refl;
    audit = refl;
    confirms = refl;
    approvals = refl;
    asked = [];
    direct = sym (append-nil s.direct);
    ungated = tt;
  }

  pub OnlyAsks-refl : (s : State r) → OnlyAsks s s
  OnlyAsks-refl s = OnlyAsks-none s.world s.cursors s.manifests s.ticks s.draws s

  OnlyAsks-then : {s t u : State r} → OnlyAsks s t → OnlyAsks t u → OnlyAsks s u
  OnlyAsks-then {s} p q = record {
    executed = q.executed ∙ p.executed;
    audit = q.audit ∙ p.audit;
    confirms = q.confirms ∙ p.confirms;
    approvals = q.approvals ∙ p.approvals;
    asked = p.asked ++ q.asked;
    direct = q.direct ∙ ap (λ xs. xs ++ q.asked) p.direct ∙ append_assoc s.direct p.asked q.asked;
    ungated = All-append IsUngated p.asked q.asked p.ungated q.ungated;
  }

  issued_cursor-OnlyAsks :
      (s : State r) (p : Cursor.Store × Option String) → OnlyAsks s (issued_cursor r s p).1
  issued_cursor-OnlyAsks s (store, some id) = OnlyAsks-none s.world store s.manifests _ _ s
  issued_cursor-OnlyAsks s (store, none) = OnlyAsks-none s.world store s.manifests _ _ s

  pub OnlyAsks-if :
      {A : Type 0} (b : Bool) (s : State r) (x y : A × State r)
      → OnlyAsks s x.1
      → OnlyAsks s y.1
      → OnlyAsks s (if b then x else y).1
  OnlyAsks-if true s x y p q = p
  OnlyAsks-if false s x y p q = q

  from_binding-OnlyAsks :
      (b : Cursor.Binding) (link : String) (s : State r)
      → OnlyAsks s (issue_search_cursor_from_binding r b link s).1
  unfolding issue_search_cursor_from_binding
  from_binding-OnlyAsks b link s = OnlyAsks-if (is_blank link) s _ _ (OnlyAsks-refl s) (
      issued_cursor-OnlyAsks s (
        Cursor.issue (r.random s.draws) b r.client.name link search_cursor_ttl (r.clock s.ticks)
          s.cursors))

  issue-OnlyAsks :
      (i : MailSearchInput) (link : String) (s : State r)
      → OnlyAsks s (issue_search_cursor r i link s).1
  unfolding issue_search_cursor
  issue-OnlyAsks i link s =
      OnlyAsks-if (not (supports_cursor_pagination r.client.name)) s _ _ (OnlyAsks-refl s)
        (from_binding-OnlyAsks (search_binding r i) link s)

  with_cursor-OnlyAsks :
      (response : ActionResponse) (s : State r) (p : Result Cursor.Error String × State r)
      → OnlyAsks s p.1
      → OnlyAsks s (with_cursor r response p).1
  with_cursor-OnlyAsks response s (ok id, t) h = h
  with_cursor-OnlyAsks response s (err e, t) h = h

  page_out-OnlyAsks :
      (response : ActionResponse) (get : State r → Result Cursor.Error String × State r)
      (s : State r)
      → OnlyAsks s (get s).1
      → OnlyAsks s (page_out r response get s).1
  page_out-OnlyAsks response get s h =
      OnlyAsks-if (raw_next_link r response == "") s _ _ (OnlyAsks-refl s)
        (with_cursor-OnlyAsks response s (get s) h)

  committed-OnlyAsks :
      (l : Cursor.Lease) (response : ActionResponse) (s : State r) (p : Cursor.Store × Bool)
      → OnlyAsks s (committed r l response s p).1
  committed-OnlyAsks l response s (store, false) = OnlyAsks-none s.world store s.manifests _ _ s
  committed-OnlyAsks l response s (store, true) =
      let t = record s { cursors = store; ticks = suc s.ticks } in
      OnlyAsks-then (OnlyAsks-none s.world store s.manifests (suc s.ticks) s.draws s) (
        page_out-OnlyAsks response
          (issue_search_cursor_from_binding r l.leased.binding (raw_next_link r response)) t
          (from_binding-OnlyAsks l.leased.binding (raw_next_link r response) t))

  answered-OnlyAsks :
      (l : Cursor.Lease) (response : ActionResponse) (s : State r) (o : Option String)
      → OnlyAsks s (answered r l response s o).1
  answered-OnlyAsks l response s (some message) = OnlyAsks-none s.world _ s.manifests _ _ s
  answered-OnlyAsks l response s none =
      committed-OnlyAsks l response s (Cursor.commit_lease l (r.clock s.ticks) s.cursors)

  pub leased-OnlyAsks :
      (s : State r) (p : Cursor.Store × Cursor.Result Cursor.Lease) → OnlyAsks s (leased r s p).1
  unfolding run_direct
  leased-OnlyAsks s (store, Cursor.err e) = OnlyAsks-none s.world store s.manifests _ _ s
  leased-OnlyAsks s (store, Cursor.ok l) =
      let t = record s { cursors = store; ticks = suc s.ticks; draws = suc s.draws } in
      let ran = run_direct r "mail.search_next" (next_payload r l.leased) t in
      OnlyAsks-then (OnlyAsks-none s.world store s.manifests (suc s.ticks) (suc s.draws) s) (
        OnlyAsks-then (OnlyAsks-one _ _ t refl)
          (answered-OnlyAsks l ran.0 ran.1 (transport_response_error r ran.0)))

  searched-OnlyAsks :
      (i : MailSearchInput) (response : ActionResponse) (s : State r) (o : Option String)
      → OnlyAsks s (search_answered r i response s o).1
  searched-OnlyAsks i response s (some message) = OnlyAsks-refl s
  searched-OnlyAsks i response s none =
      page_out-OnlyAsks response (issue_search_cursor r i (raw_next_link r response)) s
        (issue-OnlyAsks i (raw_next_link r response) s)

  pub searched_run-OnlyAsks :
      (i : MailSearchInput) (payload : Fields) (s : State r)
      → OnlyAsks s (searched r i (run_direct r "mail.search" payload s)).1
  unfolding run_direct
  searched_run-OnlyAsks i payload s =
      let ran = run_direct r "mail.search" payload s in
      OnlyAsks-then (OnlyAsks-one _ _ s refl)
        (searched-OnlyAsks i ran.0 ran.1 (transport_response_error r ran.0))

  fetch_each-OnlyAsks :
      (mailbox : String) (ids : List String) (out : MailFetchBodiesOutput) (s : State r)
      → OnlyAsks s (fetch_each r mailbox ids (out, s)).1
  unfolding fetch_each run_direct
  fetch_each-OnlyAsks mailbox [] out s = OnlyAsks-refl s
  fetch_each-OnlyAsks mailbox (id ∷ ids) out s =
      OnlyAsks-then (OnlyAsks-one _ _ s refl) (fetch_each-OnlyAsks mailbox ids _ _)

  fetch_present-OnlyAsks :
      (ids : List String) (max : ℤ) (mailbox message : String) (s : State r)
      → OnlyAsks s (fetch_present r ids max mailbox message s).1
  fetch_present-OnlyAsks [] max mailbox message s = OnlyAsks-refl s
  fetch_present-OnlyAsks (id ∷ ids) max mailbox message s =
      fetch_each-OnlyAsks mailbox (fetch_ids (id ∷ ids) max) _ s

  pub fetch_bodies-OnlyAsks :
      (ids : List String) (max : ℤ) (mailbox message : String) (s : State r)
      → OnlyAsks s (fetch_bodies r ids max mailbox message s).1
  unfolding fetch_bodies
  fetch_bodies-OnlyAsks ids max mailbox message s =
      fetch_present-OnlyAsks (non_empty_strings ids) max mailbox message s

  audited-OnlyAsks :
      (m : Manifest.Record) (s : State r) (p : Result String MailFetchBodiesOutput × State r)
      → OnlyAsks s p.1
      → OnlyAsks s (audited_batch r m p).1
  audited-OnlyAsks m s (ok batch, t) h = h
  audited-OnlyAsks m s (err message, t) h = h

  pub audit_found-OnlyAsks :
      (max : ℤ) (mailbox : String) (s : State r) (p : Manifest.Store × Option Manifest.Record)
      → OnlyAsks s (audit_found r max mailbox s p).1
  audit_found-OnlyAsks max mailbox s (store, none) = OnlyAsks-none s.world s.cursors store _ _ s
  audit_found-OnlyAsks max mailbox s (store, some m) =
      let t = record s { manifests = store; ticks = suc s.ticks } in
      let owner = if mailbox == "" then m.mailbox else mailbox in
      audited-OnlyAsks m s (fetch_bodies r m.ids max owner "mutation manifest has no ids" t) (
        OnlyAsks-then (OnlyAsks-none s.world s.cursors store (suc s.ticks) s.draws s)
          (fetch_bodies-OnlyAsks m.ids max owner "mutation manifest has no ids" t))
