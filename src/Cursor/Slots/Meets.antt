-- ===== src/Cursor/Slots/Meets.antt =====
-- Each operation of the cursor store meets its contract.
use outlook_agent.Prelude.{Option-cases, String, arith, inl, inr, none, refl, some, ℕ, ◌+◌, ◌≡◌}
use outlook_agent.Table
use outlook_agent.Table.{lookup-insert_self, lookup, lookup-delete_self}
use outlook_agent.Cursor.{
  Binding, Lease, LeaseRecord, Record, Scope, Store, commit_lease, consume, consume_scoped, issue,
  lease_scoped, lease_time, peek_scoped, rollback_lease,
}
use outlook_agent.Cursor.Invariant.{
  Call, IsCovered, after, committed, consumed, consumed_scoped, issued, leased, peeked, rolled_back,
}
use outlook_agent.Cursor.Slots.{answer, contract, slot, target}

-- the slot that a call leaves, and what it returns, are those of its contract
abbrev pub Meets : Call → Store → Type 0
Meets c s = (slot (target c) (after c s), answer c s) ≡ contract c (slot (target c) s)

-- the cases of a cursor's two entries, where a leased one has a record
data Entries (id : String) (s : Store) : Type 0 where
  missing : lookup id s.records ≡ none → lookup id s.leases ≡ none → Entries id s
  unlent : (r : Record) → lookup id s.records ≡ some r → lookup id s.leases ≡ none → Entries id s
  held :
      (r : Record) (l : LeaseRecord)
      → lookup id s.records ≡ some r
      → lookup id s.leases ≡ some l
      → Entries id s

Entries-of : (id : String) (s : Store) → IsCovered s → Entries id s
Entries-of id s h = elim (Option-cases (lookup id s.leases)) [
  | inl e ↦ elim (Option-cases (lookup id s.records)) [
    | inl m ↦ missing m e
    | inr (r, f) ↦ unlent r f e
  ]
  | inr (l, e) ↦ let (r, f) = h.covered id l e in held r l f e
]

issue-Meets :
    (b : Binding) (id provider link : String) (ttl now : ℕ) (s : Store)
    → Entries id s
    → Meets (issued (some id) b provider link ttl now) s
unfolding slot issue
issue-Meets b id provider link ttl now s (missing m e) = ground (
  arith,
  m,
  e,
  lookup-insert_self id
      (record { binding = b; provider = provider; next_link = link; expires_at = now + ttl })
      s.records,
)
issue-Meets b id provider link ttl now s (unlent r m e) = ground (
  arith,
  m,
  e,
  lookup-insert_self id
      (record { binding = b; provider = provider; next_link = link; expires_at = now + ttl })
      s.records,
)
issue-Meets b id provider link ttl now s (held r k m e) = ground (
  arith,
  m,
  e,
  lookup-insert_self id
      (record { binding = b; provider = provider; next_link = link; expires_at = now + ttl })
      s.records,
)

consume-Meets :
    (id : String) (b : Binding) (now : ℕ) (s : Store) → Entries id s → Meets (consumed id b now) s
unfolding slot consume
consume-Meets id b now s (missing m e) = ground (arith, m, e)
consume-Meets id b now s (unlent r m e) =
    ground (arith, m, e, lookup-delete_self id s.records, lookup-delete_self id s.leases)
consume-Meets id b now s (held r k m e) =
    ground (arith, m, e, lookup-delete_self id s.records, lookup-delete_self id s.leases)

consume_scoped-Meets :
    (id : String) (scope : Scope) (now : ℕ) (s : Store)
    → Entries id s
    → Meets (consumed_scoped id scope now) s
unfolding slot consume_scoped
consume_scoped-Meets id scope now s (missing m e) = ground (arith, m, e)
consume_scoped-Meets id scope now s (unlent r m e) =
    ground (arith, m, e, lookup-delete_self id s.records, lookup-delete_self id s.leases)
consume_scoped-Meets id scope now s (held r k m e) =
    ground (arith, m, e, lookup-delete_self id s.records, lookup-delete_self id s.leases)

peek_scoped-Meets :
    (id : String) (scope : Scope) (now : ℕ) (s : Store)
    → Entries id s
    → Meets (peeked id scope now) s
unfolding slot peek_scoped
peek_scoped-Meets id scope now s (missing m e) = ground (arith, m, e)
peek_scoped-Meets id scope now s (unlent r m e) =
    ground (arith, m, e, lookup-delete_self id s.records, lookup-delete_self id s.leases)
peek_scoped-Meets id scope now s (held r k m e) =
    ground (arith, m, e, lookup-delete_self id s.records, lookup-delete_self id s.leases)

lease_scoped-Meets :
    (n : String) (scope : Scope) (id : String) (ttl now : ℕ) (s : Store)
    → Entries id s
    → Meets (leased (some n) scope id ttl now) s
unfolding slot lease_scoped
lease_scoped-Meets n scope id ttl now s (missing m e) = ground (arith, m, e)
lease_scoped-Meets n scope id ttl now s (unlent r m e) = ground (
  arith,
  m,
  e,
  lookup-delete_self id s.records,
  lookup-delete_self id s.leases,
  lookup-insert_self id (record { lease_id = n; expires_at = now + lease_time ttl }) s.leases,
  lookup-insert_self id (record { lease_id = n; expires_at = now + lease_time ttl })
      (Table.delete id s.leases),
)
lease_scoped-Meets n scope id ttl now s (held r k m e) = ground (
  arith,
  m,
  e,
  lookup-delete_self id s.records,
  lookup-delete_self id s.leases,
  lookup-insert_self id (record { lease_id = n; expires_at = now + lease_time ttl }) s.leases,
  lookup-insert_self id (record { lease_id = n; expires_at = now + lease_time ttl })
      (Table.delete id s.leases),
)

commit_lease-Meets :
    (l : Lease) (now : ℕ) (s : Store) → Entries l.cursor_id s → Meets (committed l now) s
unfolding slot commit_lease
commit_lease-Meets l now s (missing m e) = ground (arith, m, e)
commit_lease-Meets l now s (unlent r m e) =
    ground (
      arith,
      m,
      e,
      lookup-delete_self l.cursor_id s.records,
      lookup-delete_self l.cursor_id s.leases,
    )
commit_lease-Meets l now s (held r k m e) =
    ground (
      arith,
      m,
      e,
      lookup-delete_self l.cursor_id s.records,
      lookup-delete_self l.cursor_id s.leases,
    )

rollback_lease-Meets :
    (l : Lease) (now : ℕ) (s : Store) → Entries l.cursor_id s → Meets (rolled_back l now) s
unfolding slot rollback_lease
rollback_lease-Meets l now s (missing m e) = ground (arith, m, e)
rollback_lease-Meets l now s (unlent r m e) =
    ground (
      arith,
      m,
      e,
      lookup-delete_self l.cursor_id s.records,
      lookup-delete_self l.cursor_id s.leases,
    )
rollback_lease-Meets l now s (held r k m e) =
    ground (
      arith,
      m,
      e,
      lookup-delete_self l.cursor_id s.records,
      lookup-delete_self l.cursor_id s.leases,
    )

nothing-Meets :
    (b : Binding) (provider link : String) (ttl now : ℕ) (s : Store)
    → Meets (issued none b provider link ttl now) s
unfolding issue
nothing-Meets b provider link ttl now s = refl

unleased-Meets :
    (scope : Scope) (id : String) (ttl now : ℕ) (s : Store) → Meets (leased none scope id ttl now) s
unfolding lease_scoped
unleased-Meets scope id ttl now s = refl

pub call-Meets : (c : Call) (s : Store) → IsCovered s → Meets c s
call-Meets (issued none b provider link ttl now) s h = nothing-Meets b provider link ttl now s
call-Meets (issued (some id) b provider link ttl now) s h =
    issue-Meets b id provider link ttl now s (Entries-of id s h)
call-Meets (consumed id b now) s h = consume-Meets id b now s (Entries-of id s h)
call-Meets (consumed_scoped id scope now) s h =
    consume_scoped-Meets id scope now s (Entries-of id s h)
call-Meets (peeked id scope now) s h = peek_scoped-Meets id scope now s (Entries-of id s h)
call-Meets (leased none scope id ttl now) s h = unleased-Meets scope id ttl now s
call-Meets (leased (some n) scope id ttl now) s h =
    lease_scoped-Meets n scope id ttl now s (Entries-of id s h)
call-Meets (committed l now) s h = commit_lease-Meets l now s (Entries-of l.cursor_id s h)
call-Meets (rolled_back l now) s h = rollback_lease-Meets l now s (Entries-of l.cursor_id s h)
