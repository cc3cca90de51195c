-- ===== src/Cursor/Invariant.antt =====
-- The invariant of the cursor store: a leased cursor has a record.
use outlook_agent.Prelude.{
  Bool-cases, List, Option, String, [], arith, eq_iff, inl, inr, none, some, ℕ, ◌+◌, ◌==◌, ◌∷◌, ◌≡◌,
}
use outlook_agent.Table.{lookup, lookup-delete, lookup-insert}
use outlook_agent.Cursor.{
  Binding, Lease, LeaseRecord, Record, Scope, Store, commit_lease, consume, consume_scoped, issue,
  lease_scoped, new_store, peek_scoped, rollback_lease,
}
use outlook_agent.Cursor.Edits.{
  grant, Edit, commit_lease-Edit, consume-Edit, consume_scoped-Edit, discard, followed, keep,
  lease_scoped-Edit, peek_scoped-Edit, release, rollback_lease-Edit,
}

pub record IsCovered (s : Store) : Type 0 where
  pub covered :
      (id : String) (l : LeaseRecord)
      → lookup id s.leases ≡ some l
      → (r : Record) × (lookup id s.records ≡ some r)

-- One call of the store, with the clock reading and the random identifier that it gets.
pub data Call : Type 0 where
  issued : Option String → Binding → String → String → ℕ → ℕ → Call
  consumed : String → Binding → ℕ → Call
  consumed_scoped : String → Scope → ℕ → Call
  peeked : String → Scope → ℕ → Call
  leased : Option String → Scope → String → ℕ → ℕ → Call
  committed : Lease → ℕ → Call
  rolled_back : Lease → ℕ → Call

abbrev pub after : Call → Store → Store
after (issued id b provider link ttl now) s = (issue id b provider link ttl now s).0
after (consumed id b now) s = (consume id b now s).0
after (consumed_scoped id scope now) s = (consume_scoped id scope now s).0
after (peeked id scope now) s = (peek_scoped id scope now s).0
after (leased o scope id ttl now) s = (lease_scoped o scope id ttl now s).0
after (committed l now) s = (commit_lease l now s).0
after (rolled_back l now) s = (rollback_lease l now s).0

after_all : List Call → Store → Store
after_all [] s = s
after_all (c ∷ cs) s = after_all cs (after c s)

Edit-IsCovered : {id : String} {s t : Store} → Edit id s t → IsCovered s → IsCovered t
Edit-IsCovered (keep s) h = h
Edit-IsCovered {id} (release s) h = record {
  covered = λ j l e. h.covered j l (ground (arith, lookup-delete id j s.leases));
}
Edit-IsCovered {id} (discard s) h = record {
  covered = λ j l e.
      let (r, found) = h.covered j l (ground (arith, lookup-delete id j s.leases)) in
      (r, ground (arith, lookup-delete id j s.leases, lookup-delete id j s.records));
}
Edit-IsCovered {id} (grant s r l' found) h = record {
  covered = λ j l e. elim (Bool-cases (id == j)) [
    | inl same ↦ (r, ground (arith, eq_iff id j))
    | inr apart ↦ h.covered j l (ground (arith, lookup-insert id j l' s.leases))
  ];
}
Edit-IsCovered (followed p q) h = Edit-IsCovered q (Edit-IsCovered p h)

issue-IsCovered :
    (o : Option String) (b : Binding) (provider link : String) (ttl now : ℕ) (s : Store)
    → IsCovered s
    → IsCovered (issue o b provider link ttl now s).0
unfolding issue
issue-IsCovered none b provider link ttl now s h = h
issue-IsCovered (some id) b provider link ttl now s h = record {
  covered = λ j l e. elim (Bool-cases (id == j)) [
    | inl same ↦ (
      record { binding = b; provider = provider; next_link = link; expires_at = now + ttl },
      ground (
        arith,
        lookup-insert id j
            (record { binding = b; provider = provider; next_link = link; expires_at = now + ttl })
            s.records,
      ),
    )
    | inr apart ↦
        let (r, found) = h.covered j l e in
        (
          r,
          ground (
            arith,
            lookup-insert id j
                (record {
                  binding = b;
                  provider = provider;
                  next_link = link;
                  expires_at = now + ttl;
                })
                s.records,
          ),
        )
  ];
}

-- Every operation of the store, on every branch, keeps a record for each leased cursor.
pub after-IsCovered : (c : Call) (s : Store) → IsCovered s → IsCovered (after c s)
after-IsCovered (issued id b provider link ttl now) s h =
    issue-IsCovered id b provider link ttl now s h
after-IsCovered (consumed id b now) s h = Edit-IsCovered (consume-Edit id b now s) h
after-IsCovered (consumed_scoped id scope now) s h =
    Edit-IsCovered (consume_scoped-Edit id scope now s) h
after-IsCovered (peeked id scope now) s h = Edit-IsCovered (peek_scoped-Edit id scope now s) h
after-IsCovered (leased o scope id ttl now) s h =
    Edit-IsCovered (lease_scoped-Edit o scope id ttl now s) h
after-IsCovered (committed l now) s h = Edit-IsCovered (commit_lease-Edit l now s) h
after-IsCovered (rolled_back l now) s h = Edit-IsCovered (rollback_lease-Edit l now s) h

pub new_store-IsCovered : IsCovered new_store
unfolding new_store lookup
new_store-IsCovered = record { covered = λ id l e. cc }

after_all-IsCovered_from : (cs : List Call) (s : Store) → IsCovered s → IsCovered (after_all cs s)
unfolding after_all
after_all-IsCovered_from [] s h = h
after_all-IsCovered_from (c ∷ cs) s h =
    after_all-IsCovered_from cs (after c s) (after-IsCovered c s h)

-- After any sequence of calls on a new store, every leased cursor has a record.
after_all-IsCovered : (cs : List Call) → IsCovered (after_all cs new_store)
after_all-IsCovered cs = after_all-IsCovered_from cs new_store new_store-IsCovered
