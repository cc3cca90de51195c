-- ===== src/Cursor/Edits.antt =====
-- The edits that the operations of the cursor store are made of: each operation on a cursor changes
-- only the entries of that cursor, and adds no record.
use outlook_agent.Prelude.{
  Bool, Option, String, arith, false, if◌then◌else◌, ltb, none, not, refl, some, true, ℕ, ◌==◌, ◌≡◌,
}
use outlook_agent.Table
use outlook_agent.Table.{lookup, lookup-delete, lookup-insert}
use outlook_agent.Cursor.{
  active_found, commit_found, consume_found, lease_unleased, peek_found, take_record,
  consume_scoped_found, peek_unleased, rollback_found, lease_found, Binding, Lease, LeaseRecord,
  Record, Scope, Store, binding_eq, commit_lease, consume, consume_scoped, drop, has_active_lease,
  in_scope, lease_scoped, peek_scoped, rollback_lease,
}

-- A change to the entries of one cursor that adds no record.
pub data Edit (id : String) : Store → Store → Type 0 where
  keep : (s : Store) → Edit id s s
  release : (s : Store) → Edit id s (record s { leases = Table.delete id s.leases })
  discard : (s : Store) → Edit id s (drop id s)
  grant :
      (s : Store) (r : Record) (l : LeaseRecord)
      → lookup id s.records ≡ some r
      → Edit id s (record s { leases = Table.insert id l s.leases })
  followed : {s t u : Store} → Edit id s t → Edit id t u → Edit id s u

Edit-if {ℓ} :
    {A : Type ℓ} {id : String} {s : Store} (b : Bool) (x y : Store × A)
    → Edit id s x.0
    → Edit id s y.0
    → Edit id s (if b then x else y).0
Edit-if true x y p q = p
Edit-if false x y p q = q

active_found-Edit :
    (id : String) (now : ℕ) (s : Store) (o : Option LeaseRecord)
    → Edit id s (active_found id now s o).0
active_found-Edit id now s none = keep s
active_found-Edit id now s (some a) = Edit-if (ltb now a.expires_at) _ _ (keep s) (release s)

has_active_lease-Edit :
    (id : String) (now : ℕ) (s : Store) → Edit id s (has_active_lease id now s).0
unfolding has_active_lease
has_active_lease-Edit id now s = active_found-Edit id now s (lookup id s.leases)

take_record-Edit :
    (id : String) (now : ℕ) (r : Record) (s : Store) (p : Store × Bool)
    → Edit id s p.0
    → Edit id s (take_record id now r p).0
take_record-Edit id now r s (t, true) e = e
take_record-Edit id now r s (t, false) e = followed e (discard t)

consume_found-Edit :
    (id : String) (b : Binding) (now : ℕ) (s : Store) (o : Option Record)
    → Edit id s (consume_found id b now s o).0
consume_found-Edit id b now s none = keep s
consume_found-Edit id b now s (some r) =
    Edit-if (binding_eq r.binding b) _ _
      (take_record-Edit id now r s (has_active_lease id now s) (has_active_lease-Edit id now s))
      (keep s)

pub consume-Edit :
    (id : String) (b : Binding) (now : ℕ) (s : Store) → Edit id s (consume id b now s).0
unfolding consume
consume-Edit id b now s = consume_found-Edit id b now s (lookup id s.records)

consume_scoped_found-Edit :
    (id : String) (scope : Scope) (now : ℕ) (s : Store) (o : Option Record)
    → Edit id s (consume_scoped_found id scope now s o).0
consume_scoped_found-Edit id scope now s none = keep s
consume_scoped_found-Edit id scope now s (some r) =
    Edit-if (in_scope r scope) _ _
      (take_record-Edit id now r s (has_active_lease id now s) (has_active_lease-Edit id now s))
      (keep s)

pub consume_scoped-Edit :
    (id : String) (scope : Scope) (now : ℕ) (s : Store)
    → Edit id s (consume_scoped id scope now s).0
unfolding consume_scoped
consume_scoped-Edit id scope now s = consume_scoped_found-Edit id scope now s (lookup id s.records)

peek_unleased-Edit :
    {id : String} {s : Store} (r : Record) (p : Store × Bool)
    → Edit id s p.0
    → Edit id s (peek_unleased r p).0
peek_unleased-Edit r (t, true) e = e
peek_unleased-Edit r (t, false) e = e

peek_found-Edit :
    (id : String) (scope : Scope) (now : ℕ) (s : Store) (o : Option Record)
    → Edit id s (peek_found id scope now s o).0
peek_found-Edit id scope now s none = keep s
peek_found-Edit id scope now s (some r) = Edit-if (not (in_scope r scope)) _ _ (keep s) (
    Edit-if (not (ltb now r.expires_at)) _ _ (discard s)
      (peek_unleased-Edit r (has_active_lease id now s) (has_active_lease-Edit id now s)))

pub peek_scoped-Edit :
    (id : String) (scope : Scope) (now : ℕ) (s : Store) → Edit id s (peek_scoped id scope now s).0
unfolding peek_scoped
peek_scoped-Edit id scope now s = peek_found-Edit id scope now s (lookup id s.records)

records-has_active_lease :
    (id : String) (now : ℕ) (s : Store) → (has_active_lease id now s).0.records ≡ s.records
unfolding has_active_lease
records-has_active_lease id now s = ground arith

lease_unleased-Edit :
    (id lease_id : String) (ttl now : ℕ) (r : Record) (s : Store) (p : Store × Bool)
    → lookup id p.0.records ≡ some r
    → Edit id s p.0
    → Edit id s (lease_unleased id lease_id ttl now r p).0
lease_unleased-Edit id lease_id ttl now r s (t, true) found e = e
lease_unleased-Edit id lease_id ttl now r s (t, false) found e = followed e (grant t r _ found)

lease_found-Edit :
    (scope : Scope) (id lease_id : String) (ttl now : ℕ) (s : Store) (o : Option Record)
    → lookup id s.records ≡ o
    → Edit id s (lease_found scope id lease_id ttl now s o).0
lease_found-Edit scope id lease_id ttl now s none found = keep s
lease_found-Edit scope id lease_id ttl now s (some r) found =
    Edit-if (not (in_scope r scope)) _ _ (keep s) (
      Edit-if (not (ltb now r.expires_at)) _ _ (discard s) (
        lease_unleased-Edit id lease_id ttl now r s (has_active_lease id now s)
          (rw (records-has_active_lease id now s) found) (has_active_lease-Edit id now s)))

pub lease_scoped-Edit :
    (o : Option String) (scope : Scope) (id : String) (ttl now : ℕ) (s : Store)
    → Edit id s (lease_scoped o scope id ttl now s).0
unfolding lease_scoped
lease_scoped-Edit none scope id ttl now s = keep s
lease_scoped-Edit (some lease_id) scope id ttl now s =
    lease_found-Edit scope id lease_id ttl now s (lookup id s.records) refl

commit_found-Edit :
    (l : Lease) (now : ℕ) (s : Store) (o : Option LeaseRecord)
    → Edit l.cursor_id s (commit_found l now s o).0
commit_found-Edit l now s none = keep s
commit_found-Edit l now s (some a) =
    Edit-if (not (a.lease_id == l.lease_id)) _ _ (keep s)
      (Edit-if (not (ltb now a.expires_at)) _ _ (release s) (discard s))

pub commit_lease-Edit :
    (l : Lease) (now : ℕ) (s : Store) → Edit l.cursor_id s (commit_lease l now s).0
unfolding commit_lease
commit_lease-Edit l now s = commit_found-Edit l now s (lookup l.cursor_id s.leases)

rollback_found-Edit :
    (l : Lease) (now : ℕ) (s : Store) (o : Option LeaseRecord)
    → Edit l.cursor_id s (rollback_found l now s o).0
rollback_found-Edit l now s none = keep s
rollback_found-Edit l now s (some a) =
    Edit-if (not (a.lease_id == l.lease_id)) _ _ (keep s) (release s)

pub rollback_lease-Edit :
    (l : Lease) (now : ℕ) (s : Store) → Edit l.cursor_id s (rollback_lease l now s).0
unfolding rollback_lease
rollback_lease-Edit l now s = rollback_found-Edit l now s (lookup l.cursor_id s.leases)
