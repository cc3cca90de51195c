-- ===== src/Examples/Cursors.antt =====
-- Concrete runs of the theorems on cursors and leases.
use outlook_agent.Prelude.{List, [], arith, none, refl, some, ◌∷◌, ◌≡◌, ◌≤◌}
use outlook_agent.Table.{lookup}
use outlook_agent.Cursor.{
  ok as found_ok, Binding, Scope, Record, Lease, Store, new_store, consume, consume_scoped,
  peek_scoped, lease_scoped, rollback_lease,
}
use outlook_agent.Cursor.Invariant.{Call as CursorCall, committed, consumed, issued, leased}
use outlook_agent.Cursor.Leases.{IsLeased, IsRefused, lease_excludes, rollback-lease_scoped}
use outlook_agent.Cursor.Slots.{answers, contract_answers, no_cursors}
use outlook_agent.Cursor.Slots.Refinement.{new_store_refines}
use outlook_agent.Cursor.Traces.{given, given-le-issue_count, issue_count}

abbrev binding : Binding
binding = record {
  transport = "graph";
  profile = "work";
  action = "SearchMail";
  mailbox = "";
  query = "q";
  query_hash = "h";
}

abbrev scope : Scope
scope = record { transport = "graph"; profile = "work"; action = "SearchMail" }

abbrev page : Record
page = record { binding = binding; provider = "graph"; next_link = "n"; expires_at = 100 }

abbrev one_page : Store
one_page = record { records = ("k", page) ∷ []; leases = [] }

abbrev leased_page : Store
leased_page = record {
  records = ("k", page) ∷ [];
  leases = ("k", record { lease_id = "a"; expires_at = 40 }) ∷ [];
}

is_leased : IsLeased "k" 20 leased_page
unfolding lookup
is_leased = (record { lease_id = "a"; expires_at = 40 }, refl, omega arith)

lease_excludes_example :
    ((consume "k" binding 20 leased_page).1 ≡ none)
    × ((consume_scoped "k" scope 20 leased_page).1 ≡ none)
    × ((peek_scoped "k" scope 20 leased_page).1 ≡ none)
    × IsRefused (lease_scoped (some "b") scope "k" 30 20 leased_page).1
lease_excludes_example = lease_excludes "k" 20 leased_page is_leased binding scope (some "b") 30

abbrev lease : Lease
lease = record { cursor_id = "k"; lease_id = "b"; leased = page }

is_granted : (lease_scoped (some "b") scope "k" 30 10 one_page).1 ≡ found_ok lease
unfolding lease_scoped lookup
is_granted = refl

rollback-lease_scoped_example :
    (lease_scoped
      (some "d")
      scope
      "k"
      30
      50
      (rollback_lease lease 20 (lease_scoped (some "b") scope "k" 30 10 one_page).0).0).1
    ≡ found_ok (record { cursor_id = "k"; lease_id = "d"; leased = page })
rollback-lease_scoped_example =
    rollback-lease_scoped (some "b") scope "k" 30 10 20 one_page lease is_granted "d" 30 50
      (omega arith)

abbrev calls : List CursorCall
calls =
    issued (some "k") binding "graph" "n" 90 10
    ∷ leased (some "b") scope "k" 30 20
    ∷ consumed "k" binding 25
    ∷ committed lease 30
    ∷ consumed "k" binding 35
    ∷ []

given-le-issue_count_example : given "k" calls new_store ≤ issue_count "k" calls
given-le-issue_count_example = given-le-issue_count "k" calls

new_store_refines_example : answers calls new_store ≡ contract_answers calls no_cursors
new_store_refines_example = new_store_refines calls
