-- ===== src/Cursor/Slots/Refinement.antt =====
-- The cursor store meets its contract over every run of calls.
use outlook_agent.Prelude.{
  Bool-cases, List, Option, String, [], ap, eq→path, false, inl, inr, none, refl, some, sym, ℕ, ◌+◌,
  ◌==◌, ◌∙◌, ◌∷◌, ◌≡◌,
}
use outlook_agent.Table.{lookup, lookup-delete, lookup-insert}
use outlook_agent.Cursor.{Binding, Store, issue, new_store}
use outlook_agent.Cursor.Invariant.{
  Call, IsCovered, after, after-IsCovered, committed, consumed, consumed_scoped, issued, leased,
  new_store-IsCovered, peeked, rolled_back,
}
use outlook_agent.Cursor.Slots.{Slot, answers, contract_answers, moved, no_cursors, slot, target}
use outlook_agent.Cursor.Edits.{
  grant, Edit, commit_lease-Edit, consume-Edit, consume_scoped-Edit, discard, followed, keep,
  lease_scoped-Edit, peek_scoped-Edit, release, rollback_lease-Edit,
}
use outlook_agent.Cursor.Slots.Meets.{call-Meets}

Edit-slot :
    (k : String) {id : String} {s t : Store} → Edit id s t → (id == k) ≡ false → slot k t ≡ slot k s
unfolding slot
Edit-slot k (keep s) e = refl
Edit-slot k {id} (release s) e = rw (lookup-delete id k s.leases, e) refl
Edit-slot k {id} (discard s) e =
    rw (lookup-delete id k s.leases, lookup-delete id k s.records, e) refl
Edit-slot k {id} (grant s r l found) e = rw (lookup-insert id k l s.leases, e) refl
Edit-slot k (followed p q) e = Edit-slot k q e ∙ Edit-slot k p e

issue-slot :
    (k : String) (o : Option String) (b : Binding) (provider link : String) (ttl now : ℕ)
    (s : Store)
    → let c = issued o b provider link ttl now in
      (target c == k) ≡ false → slot k (after c s) ≡ slot k s
unfolding slot issue
issue-slot k none b provider link ttl now s e = refl
issue-slot k (some id) b provider link ttl now s e =
    rw
      (
        lookup-insert id k
            (record { binding = b; provider = provider; next_link = link; expires_at = now + ttl })
            s.records,
        e,
      )
      refl

-- a call leaves the slots of the other cursors
others_kept :
    (k : String) (c : Call) (s : Store) → (target c == k) ≡ false → slot k (after c s) ≡ slot k s
others_kept k (issued o b provider link ttl now) s e = issue-slot k o b provider link ttl now s e
others_kept k (consumed id b now) s e = Edit-slot k (consume-Edit id b now s) e
others_kept k (consumed_scoped id scope now) s e =
    Edit-slot k (consume_scoped-Edit id scope now s) e
others_kept k (peeked id scope now) s e = Edit-slot k (peek_scoped-Edit id scope now s) e
others_kept k (leased o scope id ttl now) s e =
    Edit-slot k (lease_scoped-Edit o scope id ttl now s) e
others_kept k (committed l now) s e = Edit-slot k (commit_lease-Edit l now s) e
others_kept k (rolled_back l now) s e = Edit-slot k (rollback_lease-Edit l now s) e

abbrev Agrees : (String → Slot) → Store → Type 0
Agrees m s = (k : String) → slot k s ≡ m k

after-Agrees :
    (c : Call) (s : Store) (m : String → Slot)
    → IsCovered s
    → Agrees m s
    → Agrees (moved c m) (after c s)
after-Agrees c s m h a k = elim (Bool-cases (target c == k)) [
  | inl e ↦
      rw (e, sym (a (target c)), sym (eq→path (target c) k e)) (ap (λ p. p.0) (call-Meets c s h))
  | inr e ↦ rw (e, others_kept k c s e) (a k)
]

run_refines :
    (cs : List Call) (s : Store) (m : String → Slot)
    → IsCovered s
    → Agrees m s
    → answers cs s ≡ contract_answers cs m
unfolding answers contract_answers
run_refines [] s m h a = refl
run_refines (c ∷ cs) s m h a =
    rw
      (
        sym (a (target c)),
        sym (ap (λ p. p.1) (call-Meets c s h)),
        run_refines cs (after c s) (moved c m) (after-IsCovered c s h) (after-Agrees c s m h a),
      )
      refl

new_store-Agrees : Agrees no_cursors new_store
unfolding new_store slot lookup
new_store-Agrees k = refl

-- Every run of calls on a new store returns what the contracts of the calls give, each on the slot
-- of its own cursor, from slots that are all empty.
pub new_store_refines : (cs : List Call) → answers cs new_store ≡ contract_answers cs no_cursors
new_store_refines cs = run_refines cs new_store no_cursors new_store-IsCovered new_store-Agrees
