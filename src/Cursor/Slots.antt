-- ===== src/Cursor/Slots.antt =====
-- The contract of the cursor store: what a caller can observe of it, with one slot for each cursor
-- in place of the two maps. A call works on one slot and leaves the others.
mod Meets
pub mod Refinement
use outlook_agent.Prelude.{
  Bool, List, Option, String, [], false, if◌then◌else◌, ltb, none, not, some, true, ℕ, ◌&&◌, ◌+◌,
  ◌==◌, ◌∷◌,
}
use outlook_agent.Table.{lookup}
use outlook_agent.Cursor.{
  Error, Lease, LeaseRecord, Record, Result, Scope, Store, binding_eq, commit_lease, consume,
  consume_scoped, in_scope, issue, lease_scoped, lease_time, peek_scoped, rollback_lease, ok, err,
}
use outlook_agent.Cursor.Invariant.{
  Call, after, committed, consumed, consumed_scoped, issued, leased, peeked, rolled_back,
}

-- A cursor is not there, or waits for a call, or has been lent until its lease ends.
pub data Slot : Type 0 where
  absent : Slot
  waiting : Record → Slot
  lent : Record → LeaseRecord → Slot

-- what a call returns
pub data Answer : Type 0 where
  named : Option String → Answer
  gave : Option Record → Answer
  lease : Result Lease → Answer
  told : Bool → Answer

abbrev fresh : ℕ → Record → Option Record
fresh now r = if ltb now r.expires_at then some r else none

abbrev is_active : ℕ → LeaseRecord → Bool
is_active now l = ltb now l.expires_at

abbrev refill : Record → Slot → Slot
refill r absent = waiting r
refill r (waiting old) = waiting r
refill r (lent old l) = lent r l

-- the record that suits the caller is taken, unless it is lent
abbrev take : (Record → Bool) → ℕ → Slot → Slot × Answer
take suits now absent = (absent, gave none)
take suits now (waiting r) =
    if suits r then (absent, gave (fresh now r)) else (waiting r, gave none)
take suits now (lent r l) =
    if suits r && not (is_active now l) then (absent, gave (fresh now r)) else (lent r l, gave none)

abbrev peek : Scope → ℕ → Slot → Slot × Answer
peek scope now absent = (absent, gave none)
peek scope now (waiting r) =
    if not (in_scope r scope)
    then (waiting r, gave none)
    else if ltb now r.expires_at
    then (waiting r, gave (some r))
    else (absent, gave none)
peek scope now (lent r l) =
    if not (in_scope r scope)
    then (lent r l, gave none)
    else if not (ltb now r.expires_at)
    then (absent, gave none)
    else if is_active now l
    then (lent r l, gave none)
    else (waiting r, gave (some r))

abbrev lend : String → String → ℕ → ℕ → Record → Slot × Answer
lend id lease_id ttl now r = (
  lent r (record { lease_id = lease_id; expires_at = now + lease_time ttl }),
  lease (ok (record { cursor_id = id; lease_id = lease_id; leased = r })),
)

abbrev borrow : Option String → Scope → String → ℕ → ℕ → Slot → Slot × Answer
borrow none scope id ttl now slot = (slot, lease (err Error.random))
borrow (some lease_id) scope id ttl now absent = (absent, lease (err Error.invalid))
borrow (some lease_id) scope id ttl now (waiting r) =
    if not (in_scope r scope)
    then (waiting r, lease (err Error.invalid))
    else if ltb now r.expires_at
    then lend id lease_id ttl now r
    else (absent, lease (err Error.invalid))
borrow (some lease_id) scope id ttl now (lent r l) =
    if not (in_scope r scope)
    then (lent r l, lease (err Error.invalid))
    else if not (ltb now r.expires_at)
    then (absent, lease (err Error.invalid))
    else if is_active now l
    then (lent r l, lease (err Error.in_use))
    else lend id lease_id ttl now r

-- only the holder of the lease ends it; if it is late, the cursor waits again
abbrev settle : Lease → ℕ → Slot → Slot × Answer
settle given now absent = (absent, told false)
settle given now (waiting r) = (waiting r, told false)
settle given now (lent r l) =
    if not (l.lease_id == given.lease_id)
    then (lent r l, told false)
    else if is_active now l
    then (absent, told true)
    else (waiting r, told false)

abbrev hand_back : Lease → ℕ → Slot → Slot × Answer
hand_back given now absent = (absent, told false)
hand_back given now (waiting r) = (waiting r, told false)
hand_back given now (lent r l) =
    if l.lease_id == given.lease_id
    then (waiting r, told (is_active now l))
    else (lent r l, told false)

-- the cursor that a call is about; Issue without an identifier changes no slot, so that it may count
-- as a call about any
abbrev pub target : Call → String
target (issued none b provider link ttl now) = ""
target (issued (some id) b provider link ttl now) = id
target (consumed id b now) = id
target (consumed_scoped id scope now) = id
target (peeked id scope now) = id
target (leased o scope id ttl now) = id
target (committed l now) = l.cursor_id
target (rolled_back l now) = l.cursor_id

-- the contract of one call, on the slot of its cursor
abbrev pub contract : Call → Slot → Slot × Answer
contract (issued none b provider link ttl now) slot = (slot, named none)
contract (issued (some id) b provider link ttl now) slot = (
  refill (record { binding = b; provider = provider; next_link = link; expires_at = now + ttl })
      slot,
  named (some id),
)
contract (consumed id b now) slot = take (λ r. binding_eq r.binding b) now slot
contract (consumed_scoped id scope now) slot = take (λ r. in_scope r scope) now slot
contract (peeked id scope now) slot = peek scope now slot
contract (leased o scope id ttl now) slot = borrow o scope id ttl now slot
contract (committed l now) slot = settle l now slot
contract (rolled_back l now) slot = hand_back l now slot

-- what the store's operations return
abbrev pub answer : Call → Store → Answer
answer (issued id b provider link ttl now) s = named (issue id b provider link ttl now s).1
answer (consumed id b now) s = gave (consume id b now s).1
answer (consumed_scoped id scope now) s = gave (consume_scoped id scope now s).1
answer (peeked id scope now) s = gave (peek_scoped id scope now s).1
answer (leased o scope id ttl now) s = lease (lease_scoped o scope id ttl now s).1
answer (committed l now) s = told (commit_lease l now s).1
answer (rolled_back l now) s = told (rollback_lease l now s).1

abbrev slot_of : Option Record → Option LeaseRecord → Slot
slot_of none o = absent
slot_of (some r) none = waiting r
slot_of (some r) (some l) = lent r l

-- the slot of a cursor in the store's two maps
pub slot : String → Store → Slot
slot k s = slot_of (lookup k s.records) (lookup k s.leases)

-- what a run of calls on the store returns
pub answers : List Call → Store → List Answer
answers [] s = []
answers (c ∷ cs) s = answer c s ∷ answers cs (after c s)

-- the slots after a call, by its contract
abbrev pub moved : Call → (String → Slot) → String → Slot
moved c m k = if target c == k then (contract c (m (target c))).0 else m k

-- what a run of calls returns by their contracts
pub contract_answers : List Call → (String → Slot) → List Answer
contract_answers [] m = []
contract_answers (c ∷ cs) m = (contract c (m (target c))).1 ∷ contract_answers cs (moved c m)

-- no cursor is there
abbrev pub no_cursors : String → Slot
no_cursors k = absent
