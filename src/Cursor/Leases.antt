-- ===== src/Cursor/Leases.antt =====
-- The exclusivity of leases, and what a commit and a rollback do with one.
use outlook_agent.Prelude.{
  Option, String, arith, eq_iff, false, if◌then◌else◌, ltb, none, refl, some, true, ℕ, ◌+◌, ◌<◌,
  ◌∙◌, ◌≡◌, ◌≢◌,
}
use outlook_agent.Table
use outlook_agent.Table.{
  lookup, lookup-delete, lookup-insert, lookup-insert_self, lookup-delete_self,
}
use outlook_agent.Cursor.{
  Record, rollback_lease, commit_lease, in_scope, lease_time, Binding, Lease, LeaseRecord, Result,
  Scope, Store, consume, consume_scoped, lease_scoped, ok, peek_scoped,
}

-- Somebody holds an unexpired lease on the cursor.
abbrev pub IsLeased : String → ℕ → Store → Type 0
IsLeased id now s = (l : LeaseRecord) × (lookup id s.leases ≡ some l) × (now < l.expires_at)

abbrev pub IsRefused : Result Lease → Type 0
IsRefused r = (l : Lease) → r ≢ ok l

module _ (id : String) (now : ℕ) (s : Store) (leased : IsLeased id now s) where
  consume-IsLeased : (b : Binding) → (consume id b now s).1 ≡ none
  unfolding consume
  consume-IsLeased b = ground (arith, leased.1, leased.2)

  consume_scoped-IsLeased : (scope : Scope) → (consume_scoped id scope now s).1 ≡ none
  unfolding consume_scoped
  consume_scoped-IsLeased scope = ground (arith, leased.1, leased.2)

  peek_scoped-IsLeased : (scope : Scope) → (peek_scoped id scope now s).1 ≡ none
  unfolding peek_scoped
  peek_scoped-IsLeased scope = ground (arith, leased.1, leased.2)

  lease_scoped-IsLeased :
      (o : Option String) (scope : Scope) (ttl : ℕ)
      → IsRefused (lease_scoped o scope id ttl now s).1
  unfolding lease_scoped
  lease_scoped-IsLeased o scope ttl l = ground (arith, leased.1, leased.2)

  -- While a lease on a cursor is unexpired, no other call gets the cursor's record: Consume,
  -- ConsumeScoped and PeekScoped return nothing, and LeaseScoped returns an error.
  pub lease_excludes :
      (b : Binding) (scope : Scope) (o : Option String) (ttl : ℕ)
      → ((consume id b now s).1 ≡ none)
        × ((consume_scoped id scope now s).1 ≡ none)
        × ((peek_scoped id scope now s).1 ≡ none)
        × IsRefused (lease_scoped o scope id ttl now s).1
  lease_excludes b scope o ttl = (
    consume-IsLeased b,
    consume_scoped-IsLeased scope,
    peek_scoped-IsLeased scope,
    lease_scoped-IsLeased o scope ttl,
  )

abbrev pub entry : String → ℕ → ℕ → LeaseRecord
entry lease_id ttl now = record { lease_id = lease_id; expires_at = now + lease_time ttl }

-- What a granted lease says of the store: it names the cursor and the cursor's unexpired record in
-- the scope, and it is the lease on record.
pub granted_parts :
    (o : Option String) (scope : Scope) (id : String) (ttl now : ℕ) (s : Store) (l : Lease)
    → (lease_scoped o scope id ttl now s).1 ≡ ok l
    → (l.cursor_id ≡ id)
      × (lookup id (lease_scoped o scope id ttl now s).0.leases ≡ some (entry l.lease_id ttl now))
      × (lookup id s.records ≡ some l.leased)
      × ((lease_scoped o scope id ttl now s).0.records ≡ s.records)
      × (in_scope l.leased scope ≡ true)
      × (now < l.leased.expires_at)
unfolding lease_scoped
granted_parts none scope id ttl now s l e = ground arith
granted_parts (some lease_id) scope id ttl now s l e = ground (
  arith,
  lookup-insert_self id (entry lease_id ttl now) s.leases,
  lookup-insert_self id (entry lease_id ttl now) (Table.delete id s.leases),
)

module _ (l : Lease) (id : String) (same_id : l.cursor_id ≡ id) (later : ℕ) (s : Store)
    {a : LeaseRecord} (found : lookup id s.leases ≡ some a) where
  pub commit_own :
      a.lease_id ≡ l.lease_id
      → ((commit_lease l later s).1 ≡ ltb later a.expires_at)
        × (lookup id (commit_lease l later s).0.leases ≡ none)
        × (lookup id (commit_lease l later s).0.records
            ≡ (if ltb later a.expires_at then none else lookup id s.records))
  unfolding commit_lease
  commit_own own = ground (
    arith,
    found,
    same_id,
    eq_iff a.lease_id l.lease_id,
    lookup-delete_self id s.leases,
    lookup-delete_self id s.records,
  )

  rollback_own :
      a.lease_id ≡ l.lease_id
      → ((rollback_lease l later s).1 ≡ ltb later a.expires_at)
        × (lookup id (rollback_lease l later s).0.leases ≡ none)
        × ((rollback_lease l later s).0.records ≡ s.records)
  unfolding rollback_lease
  rollback_own own =
      ground (arith, found, same_id, eq_iff a.lease_id l.lease_id, lookup-delete_self id s.leases)

  -- A lease that another one has superseded is refused by CommitLease and by RollbackLease, and
  -- neither changes the store.
  pub superseded_refused :
      a.lease_id ≢ l.lease_id
      → (commit_lease l later s ≡ (s, false)) × (rollback_lease l later s ≡ (s, false))
  unfolding commit_lease rollback_lease
  superseded_refused apart = ground (arith, found, same_id, eq_iff a.lease_id l.lease_id)

lease_free :
    (scope : Scope) (id lease_id : String) (ttl now : ℕ) (s : Store) (r : Record)
    → lookup id s.leases ≡ none
    → lookup id s.records ≡ some r
    → in_scope r scope ≡ true
    → now < r.expires_at
    → (lease_scoped (some lease_id) scope id ttl now s).1
      ≡ ok (record { cursor_id = id; lease_id = lease_id; leased = r })
unfolding lease_scoped
lease_free scope id lease_id ttl now s r free found scoped fresh = ground arith

module _ (o : Option String) (scope : Scope) (id : String) (ttl now later : ℕ) (s : Store)
    (l : Lease) (granted : (lease_scoped o scope id ttl now s).1 ≡ ok l) where
  -- A granted lease commits exactly until it expires. The commit ends the lease, and it removes
  -- the cursor if it was in time and keeps the record if it was late.
  commit-lease_scoped :
      let held = (lease_scoped o scope id ttl now s).0 in
      ((commit_lease l later held).1 ≡ ltb later (now + lease_time ttl))
      × (lookup id (commit_lease l later held).0.leases ≡ none)
      × (lookup id (commit_lease l later held).0.records
          ≡ (if ltb later (now + lease_time ttl) then none else some l.leased))
  commit-lease_scoped =
      let g = granted_parts o scope id ttl now s l granted in
      let c = commit_own l id g.0 later (lease_scoped o scope id ttl now s).0 g.1 refl in
      (c.0, c.1, c.2 ∙ ground (arith, g.2, g.3))

  -- A rolled back lease leaves the cursor for the next caller: before the record expires, a new
  -- LeaseScoped in the same scope is granted the same record.
  pub rollback-lease_scoped :
      (lease_id : String) (ttl' again : ℕ)
      → again < l.leased.expires_at
      → (lease_scoped
          (some lease_id)
          scope
          id
          ttl'
          again
          (rollback_lease l later (lease_scoped o scope id ttl now s).0).0).1
        ≡ ok (record { cursor_id = id; lease_id = lease_id; leased = l.leased })
  rollback-lease_scoped lease_id ttl' again fresh =
      let held = (lease_scoped o scope id ttl now s).0 in
      let g = granted_parts o scope id ttl now s l granted in
      let c = rollback_own l id g.0 later held g.1 refl in
      lease_free scope id lease_id ttl' again (rollback_lease l later held).0 l.leased c.1
        (rw (c.2, g.3) g.2) g.4 fresh
