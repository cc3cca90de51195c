-- ===== src/Cursor/Traces.antt =====
-- One cursor over every sequence of calls: it is handed out for good at most as often as issued.
use outlook_agent.Prelude.{
  &&-parts, Bool, Bool-cases, List, Option, Option-cases, String, [], arith, eq_iff, false,
  if◌then◌else◌, inl, inr, none, some, suc, true, ℕ, ◌&&◌, ◌+◌, ◌==◌, ◌∷◌, ◌≡◌, ◌≤◌,
}
use outlook_agent.Table.{lookup, lookup-delete, lookup-insert, lookup-delete_self}
use outlook_agent.Cursor.{
  Binding, Lease, Record, Scope, Store, commit_lease, consume, consume_scoped, issue, new_store,
}
use outlook_agent.Cursor.Edits.{
  grant, Edit, commit_lease-Edit, consume-Edit, consume_scoped-Edit, discard, followed, keep,
  lease_scoped-Edit, peek_scoped-Edit, release, rollback_lease-Edit,
}
use outlook_agent.Cursor.Invariant.{
  Call, IsCovered, after, after-IsCovered, committed, consumed, consumed_scoped, issued, leased,
  new_store-IsCovered, peeked, rolled_back,
}

abbrev is_some {ℓ} : {A : Type ℓ} → Option A → Bool
is_some none = false
is_some (some a) = true

abbrev count_if : Bool → ℕ → ℕ
count_if b n = if b then suc n else n

-- The call gives the cursor away for good: a Consume or ConsumeScoped that returns the record, or a
-- CommitLease that returns true.
abbrev pub gives : String → Call → Store → Bool
gives k (consumed id b now) s = is_some (consume id b now s).1 && (id == k)
gives k (consumed_scoped id scope now) s = is_some (consume_scoped id scope now s).1 && (id == k)
gives k (committed l now) s = (commit_lease l now s).1 && (l.cursor_id == k)
gives k c s = false

pub given : String → List Call → Store → ℕ
given k [] s = 0
given k (c ∷ cs) s = count_if (gives k c s) (given k cs (after c s))

abbrev issues : String → Call → Bool
issues k (issued (some id) b provider link ttl now) = id == k
issues k c = false

pub issue_count : String → List Call → ℕ
issue_count k [] = 0
issue_count k (c ∷ cs) = count_if (issues k c) (issue_count k cs)

abbrev held : Option Record → ℕ
held none = 0
held (some r) = 1

present : String → Store → ℕ
present k s = held (lookup k s.records)

Edit-present : (k : String) {id : String} {s t : Store} → Edit id s t → present k t ≤ present k s
unfolding present
Edit-present k (keep s) = omega arith
Edit-present k (release s) = omega arith
Edit-present k {id} (discard s) = ground (arith, lookup-delete id k s.records)
Edit-present k (grant s r l found) = omega arith
Edit-present k (followed p q) = omega (arith, Edit-present k p, Edit-present k q)

consume_taken :
    (id : String) (b : Binding) (now : ℕ) (s : Store)
    → is_some (consume id b now s).1 ≡ true
    → (present id s ≡ 1) × (present id (consume id b now s).0 ≡ 0)
unfolding present consume
consume_taken id b now s e = ground (arith, lookup-delete_self id s.records)

consume_scoped_taken :
    (id : String) (scope : Scope) (now : ℕ) (s : Store)
    → is_some (consume_scoped id scope now s).1 ≡ true
    → (present id s ≡ 1) × (present id (consume_scoped id scope now s).0 ≡ 0)
unfolding present consume_scoped
consume_scoped_taken id scope now s e = ground (arith, lookup-delete_self id s.records)

commit_taken :
    (l : Lease) (now : ℕ) (s : Store)
    → IsCovered s
    → (commit_lease l now s).1 ≡ true
    → (present l.cursor_id s ≡ 1) × (present l.cursor_id (commit_lease l now s).0 ≡ 0)
unfolding present commit_lease
commit_taken l now s h e = elim (Option-cases (lookup l.cursor_id s.leases)) [
  | inl missing ↦ ground arith
  | inr (a, found) ↦
      ground
        (arith, found, (h.covered l.cursor_id a found).1, lookup-delete_self l.cursor_id s.records)
]

-- What a call gives away leaves the store; only Issue puts a cursor in.
gives-le :
    (k : String) (c : Call) (s : Store)
    → IsCovered s
    → count_if (gives k c s) (present k (after c s)) ≤ count_if (issues k c) (present k s)
unfolding present issue
gives-le k (issued none b provider link ttl now) s h = omega arith
gives-le k (issued (some id) b provider link ttl now) s h = ground (
  arith,
  lookup-insert id k
      (record { binding = b; provider = provider; next_link = link; expires_at = now + ttl })
      s.records,
)
gives-le k (consumed id b now) s h = elim (Bool-cases (gives k (consumed id b now) s)) [
  | inl taken ↦ ground (arith, eq_iff id k, consume_taken id b now s (&&-parts _ _ taken).0)
  | inr kept ↦ rw kept (Edit-present k (consume-Edit id b now s))
]
gives-le k (consumed_scoped id scope now) s h =
    elim (Bool-cases (gives k (consumed_scoped id scope now) s)) [
      | inl taken ↦
          ground (arith, eq_iff id k, consume_scoped_taken id scope now s (&&-parts _ _ taken).0)
      | inr kept ↦ rw kept (Edit-present k (consume_scoped-Edit id scope now s))
    ]
gives-le k (peeked id scope now) s h = Edit-present k (peek_scoped-Edit id scope now s)
gives-le k (leased o scope id ttl now) s h = Edit-present k (lease_scoped-Edit o scope id ttl now s)
gives-le k (committed l now) s h = elim (Bool-cases (gives k (committed l now) s)) [
  | inl taken ↦ ground (arith, eq_iff l.cursor_id k, commit_taken l now s h (&&-parts _ _ taken).0)
  | inr kept ↦ rw kept (Edit-present k (commit_lease-Edit l now s))
]
gives-le k (rolled_back l now) s h = Edit-present k (rollback_lease-Edit l now s)

given-le :
    (k : String) (cs : List Call) (s : Store)
    → IsCovered s
    → given k cs s ≤ issue_count k cs + present k s
unfolding given issue_count
given-le k [] s h = omega arith
given-le k (c ∷ cs) s h =
    ground (arith, gives-le k c s h, given-le k cs (after c s) (after-IsCovered c s h))

-- From a new store, over any sequence of calls, a cursor is given away (by Consume, ConsumeScoped or
-- CommitLease) at most as often as Issue returned it.
pub given-le-issue_count : (k : String) (cs : List Call) → given k cs new_store ≤ issue_count k cs
unfolding present new_store lookup
given-le-issue_count k cs = omega (arith, given-le k cs new_store new_store-IsCovered)
