-- ===== src/Server/Search/Pages.antt =====
-- What asking for a page of a search does to the cursor that it is asked for with.
use outlook_agent.Prelude.{
  Bool, Bool-cases, Option, Result, String, ap, arith, eq_iff, err, false, inl, inr, none, ok, refl,
  some, suc, sym, true, ℕ, ◌+◌, ◌<◌, ◌==◌, ◌∙◌, ◌≡◌, ◌≢◌,
}
use outlook_agent.Prelude.Text.{is_blank}
use outlook_agent.Table.{lookup, lookup-insert}
use outlook_agent.Cursor
use outlook_agent.Cursor.{Lease, Record, Store, lease_scoped, rollback_lease, commit_lease, issue}
use outlook_agent.Cursor.Leases.{rollback-lease_scoped, commit_own, granted_parts}
use outlook_agent.Server.{
  ActionResponse, Runtime, State, search_cursor_lease_ttl, search_cursor_ttl,
}
use outlook_agent.Server.Reads.{run_direct, transport_response_error}
use outlook_agent.Server.Search.{
  MailSearchOutput, committed, answered, leased, mail_search_next, next_payload, page_out, refused,
  rolled_back, search_scope, with_cursor, raw_next_link, issue_search_cursor_from_binding,
  issued_cursor,
}

module _ (r : Runtime) where
  with_cursor_not_refused :
      (response : ActionResponse) (p : Result Cursor.Error String × State r) (m : String)
      → (with_cursor r response p).0 ≢ err (refused m)
  with_cursor_not_refused response (ok id, s) m h = ground arith
  with_cursor_not_refused response (err e, s) m h = ground arith

  page_out_not_refused :
      (response : ActionResponse) (get : State r → Result Cursor.Error String × State r)
      (s : State r) (m : String)
      → (page_out r response get s).0 ≢ err (refused m)
  page_out_not_refused response get s m = elim (Bool-cases (raw_next_link r response == "")) [
    | inl e ↦ rw e (λ h. ground arith)
    | inr e ↦ rw e (with_cursor_not_refused response (get s) m)
  ]

  committed_not_refused :
      (l : Lease) (response : ActionResponse) (s : State r) (p : Store × Bool) (m : String)
      → (committed r l response s p).0 ≢ err (refused m)
  committed_not_refused l response s (store, false) m h = ground arith
  committed_not_refused l response s (store, true) m h =
      page_out_not_refused response
        (issue_search_cursor_from_binding r l.leased.binding (raw_next_link r response))
        (record s { cursors = store; ticks = suc s.ticks }) m h

  answered-refused :
      (l : Lease) (response : ActionResponse) (s : State r) (o : Option String) (m : String)
      → (answered r l response s o).0 ≡ err (refused m)
      → (answered r l response s o).1 ≡ rolled_back r l s
  answered-refused l response s (some message) m h = refl
  answered-refused l response s none m h =
      absurd (committed_not_refused l response s (commit_lease l (r.clock s.ticks) s.cursors) m h)

  leased_refused :
      (s : State r) (p : Store × Cursor.Result Lease) (m : String)
      → (leased r s p).0 ≡ err (refused m)
      → (l : Lease) × (p.1 ≡ Cursor.ok l)
        × ((leased r s p).1.cursors ≡ (rollback_lease l (r.clock (suc s.ticks)) p.0).0)
  unfolding run_direct
  leased_refused s (store, Cursor.err e) m h = ground arith
  leased_refused s (store, Cursor.ok l) m h =
      let ran =
        run_direct r "mail.search_next" (next_payload r l.leased)
          (record s { cursors = store; ticks = suc s.ticks; draws = suc s.draws }) in
      (
        l,
        refl,
        ap (λ (t : State r). t.cursors)
            (answered-refused l ran.0 ran.1 (transport_response_error r ran.0) m h),
      )

  issued_keeps :
      (b : Cursor.Binding) (link id k : String) (s : State r) (o : Option String)
      → let p =
          issued_cursor r s
            (issue o b r.client.name link search_cursor_ttl (r.clock s.ticks) s.cursors) in
        p.0 ≡ ok id → k ≢ id → lookup k p.1.cursors.records ≡ lookup k s.cursors.records
  unfolding issue
  issued_keeps b link id k s none e apart = ground arith
  issued_keeps b link id k s (some new_id) e apart = ground (
    arith,
    lookup-insert new_id k
        (record {
          binding = b;
          provider = r.client.name;
          next_link = link;
          expires_at = r.clock s.ticks + search_cursor_ttl;
        })
        s.cursors.records,
    eq_iff new_id k,
  )

  issue_keeps :
      (b : Cursor.Binding) (link id k : String) (s : State r)
      → (issue_search_cursor_from_binding r b link s).0 ≡ ok id
      → k ≢ id
      → lookup k (issue_search_cursor_from_binding r b link s).1.cursors.records
        ≡ lookup k s.cursors.records
  unfolding issue_search_cursor_from_binding
  issue_keeps b link id k s = elim (Bool-cases (is_blank link)) [
    | inl e ↦ rw e (λ h apart. refl)
    | inr e ↦ rw e (issued_keeps b link id k s (r.random s.draws))
  ]

  with_cursor_keeps :
      (response : ActionResponse) (p : Result Cursor.Error String × State r)
      (out : MailSearchOutput)
      → (with_cursor r response p).0 ≡ ok out
      → (p.0 ≡ ok out.next_cursor) × ((with_cursor r response p).1 ≡ p.1)
  with_cursor_keeps response (ok id, s) out h = (ground arith, refl)
  with_cursor_keeps response (err e, s) out h = ground arith

  page_out_keeps :
      (response : ActionResponse) (b : Cursor.Binding) (k : String) (s : State r)
      (out : MailSearchOutput)
      → let p =
          page_out r response (issue_search_cursor_from_binding r b (raw_next_link r response)) s in
        p.0 ≡ ok out
        → k ≢ out.next_cursor
        → lookup k p.1.cursors.records ≡ lookup k s.cursors.records
  page_out_keeps response b k s out =
      let link = raw_next_link r response in
      elim (Bool-cases (link == "")) [
        | inl e ↦ rw e (λ h apart. refl)
        | inr e ↦ rw e (λ h apart.
            let w =
              with_cursor_keeps response (issue_search_cursor_from_binding r b link s) out h in
            rw w.1 (issue_keeps b link out.next_cursor k s w.0 apart))
      ]

  committed_parts :
      (l : Lease) (response : ActionResponse) (s : State r) (p : Store × Bool) (k : String)
      (out : MailSearchOutput)
      → (committed r l response s p).0 ≡ ok out
      → k ≢ out.next_cursor
      → (p.1 ≡ true)
        × (lookup k (committed r l response s p).1.cursors.records ≡ lookup k p.0.records)
  committed_parts l response s (store, false) k out h apart = ground arith
  committed_parts l response s (store, true) k out h apart = (
    refl,
    page_out_keeps response l.leased.binding k (record s { cursors = store; ticks = suc s.ticks })
        out h apart,
  )

  answered_parts :
      (l : Lease) (response : ActionResponse) (s : State r) (o : Option String) (k : String)
      (out : MailSearchOutput)
      → let c = commit_lease l (r.clock s.ticks) s.cursors in
        (answered r l response s o).0 ≡ ok out
        → k ≢ out.next_cursor
        → (c.1 ≡ true)
          × (lookup k (answered r l response s o).1.cursors.records ≡ lookup k c.0.records)
  answered_parts l response s (some message) k out h apart = ground arith
  answered_parts l response s none k out h apart =
      committed_parts l response s (commit_lease l (r.clock s.ticks) s.cursors) k out h apart

  leased_parts :
      (s : State r) (p : Store × Cursor.Result Lease) (k : String) (out : MailSearchOutput)
      → (leased r s p).0 ≡ ok out
      → k ≢ out.next_cursor
      → (l : Lease) × (p.1 ≡ Cursor.ok l)
        × ((commit_lease l (r.clock (suc s.ticks)) p.0).1 ≡ true)
        × (lookup k (leased r s p).1.cursors.records
            ≡ lookup k (commit_lease l (r.clock (suc s.ticks)) p.0).0.records)
  unfolding run_direct
  leased_parts s (store, Cursor.err e) k out h apart = ground arith
  leased_parts s (store, Cursor.ok l) k out h apart =
      let ran =
        run_direct r "mail.search_next" (next_payload r l.leased)
          (record s { cursors = store; ticks = suc s.ticks; draws = suc s.draws }) in
      let a = answered_parts l ran.0 ran.1 (transport_response_error r ran.0) k out h apart in
      (l, refl, a.0, a.1)

  -- A page whose request the transport fails keeps its cursor: before the cursor's record expires,
  -- the next LeaseScoped on it is granted that record.
  pub failed_page_keeps_cursor :
      (cursor : String) (s : State r) (m : String) (c : Record) (lease_id : String) (ttl again : ℕ)
      → (mail_search_next r cursor s).0 ≡ err (refused m)
      → lookup cursor s.cursors.records ≡ some c
      → again < c.expires_at
      → (lease_scoped
          (some lease_id)
          (search_scope r)
          cursor
          ttl
          again
          (mail_search_next r cursor s).1.cursors).1
        ≡ Cursor.ok (record { cursor_id = cursor; lease_id = lease_id; leased = c })
  unfolding mail_search_next
  failed_page_keeps_cursor cursor s m c lease_id ttl again h found fresh =
      let o = r.random s.draws in
      let now = r.clock s.ticks in
      let p = lease_scoped o (search_scope r) cursor search_cursor_lease_ttl now s.cursors in
      let f = leased_refused s p m h in
      let g =
        granted_parts o (search_scope r) cursor search_cursor_lease_ttl now s.cursors f.0 f.1 in
      let same : f.0.leased ≡ c = ground (arith, g.2, found) in
      rw (f.2, sym same)
        (rollback-lease_scoped o (search_scope r) cursor search_cursor_lease_ttl now
          (r.clock (suc s.ticks)) s.cursors f.0 f.1 lease_id ttl again (rw same fresh))

  -- A page that is returned uses its cursor up: the record that it was asked for with was in the
  -- store and, unless the new page's cursor is spelled the same, it is there no more.
  pub page_uses_cursor :
      (cursor : String) (s : State r) (out : MailSearchOutput)
      → (mail_search_next r cursor s).0 ≡ ok out
      → cursor ≢ out.next_cursor
      → ((c : Record) × (lookup cursor s.cursors.records ≡ some c))
        × (lookup cursor (mail_search_next r cursor s).1.cursors.records ≡ none)
  unfolding mail_search_next
  page_uses_cursor cursor s out h apart =
      let o = r.random s.draws in
      let now = r.clock s.ticks in
      let later = r.clock (suc s.ticks) in
      let p = lease_scoped o (search_scope r) cursor search_cursor_lease_ttl now s.cursors in
      let f = leased_parts s p cursor out h apart in
      let l = f.0 in
      let granted = f.1 in
      let g =
        granted_parts o (search_scope r) cursor search_cursor_lease_ttl now s.cursors l granted in
      let c = commit_own l cursor g.0 later p.0 g.1 refl in
      ((l.leased, g.2), f.3 ∙ ground (arith, c.0, c.2, f.2))
