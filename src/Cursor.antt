-- ===== src/Cursor.antt =====
-- internal/cursor/cursor.go: one-time pagination cursors with exclusive leases. A clock reading
-- `now` and a random identifier are arguments (`none` is randomID's error); every operation runs
-- under the store's mutex. Times and lifetimes are nanoseconds and not negative.
pub mod Edits
pub mod Invariant
pub mod Leases
pub mod Slots
pub mod Traces
use outlook_agent.Prelude.{
  Bool, Option, String, [], false, if◌then◌else◌, leb, ltb, none, not, some, true, ℕ, ◌&&◌, ◌+◌,
  ◌==◌,
}
use outlook_agent.Table
use outlook_agent.Table.{Table}

pub record Binding : Type 0 where
  pub transport : String
  pub profile : String
  pub action : String
  pub mailbox : String
  pub query : String
  pub query_hash : String

pub record Record : Type 0 where
  pub binding : Binding
  pub provider : String
  pub next_link : String
  pub expires_at : ℕ

pub record Lease : Type 0 where
  pub cursor_id : String
  pub lease_id : String
  pub leased : Record

pub record Scope : Type 0 where
  pub transport : String
  pub profile : String
  pub action : String

pub record LeaseRecord : Type 0 where
  pub lease_id : String
  pub expires_at : ℕ

pub record Store : Type 0 where
  pub records : Table Record
  pub leases : Table LeaseRecord

pub data Error : Type 0 where
  -- randomID failed
  random : Error
  invalid : Error
  in_use : Error

pub data Result {ℓ} (A : Type ℓ) : Type ℓ where
  ok : A → Result A
  err : Error → Result A

unfoldable pub new_store : Store
new_store = record { records = []; leases = [] }

-- Go's `==` on two bindings
abbrev pub binding_eq : Binding → Binding → Bool
binding_eq a b =
    a.transport == b.transport
    && a.profile == b.profile
    && a.action == b.action
    && a.mailbox == b.mailbox
    && a.query == b.query
    && a.query_hash == b.query_hash

-- the test that each scoped operation makes on the record's binding
abbrev pub in_scope : Record → Scope → Bool
in_scope r scope =
    r.binding.transport == scope.transport
    && r.binding.profile == scope.profile
    && r.binding.action == scope.action

abbrev pub drop : String → Store → Store
drop id s = record { records = Table.delete id s.records; leases = Table.delete id s.leases }

abbrev active_found : String → ℕ → Store → Option LeaseRecord → Store × Bool
active_found id now s none = (s, false)
active_found id now s (some active) =
    if ltb now active.expires_at
    then (s, true)
    else (record s { leases = Table.delete id s.leases }, false)

-- hasActiveLeaseLocked: an expired lease is dropped
unfoldable pub has_active_lease : String → ℕ → Store → Store × Bool
has_active_lease id now s = active_found id now s (Table.lookup id s.leases)

unfoldable pub issue :
    Option String → Binding → String → String → ℕ → ℕ → Store → Store × Option String
issue none b provider next_link ttl now s = (s, none)
issue (some id) b provider next_link ttl now s = (
  record s {
    records =
        Table.insert id
          (record {
            binding = b;
            provider = provider;
            next_link = next_link;
            expires_at = now + ttl;
          })
          s.records;
  },
  some id,
)

abbrev take_record : String → ℕ → Record → Store × Bool → Store × Option Record
take_record id now r (s, true) = (s, none)
take_record id now r (s, false) = (drop id s, if ltb now r.expires_at then some r else none)

abbrev consume_found : String → Binding → ℕ → Store → Option Record → Store × Option Record
consume_found id b now s none = (s, none)
consume_found id b now s (some r) =
    if binding_eq r.binding b then take_record id now r (has_active_lease id now s) else (s, none)

unfoldable pub consume : String → Binding → ℕ → Store → Store × Option Record
unfolding has_active_lease
consume id b now s = consume_found id b now s (Table.lookup id s.records)

abbrev consume_scoped_found : String → Scope → ℕ → Store → Option Record → Store × Option Record
consume_scoped_found id scope now s none = (s, none)
consume_scoped_found id scope now s (some r) =
    if in_scope r scope then take_record id now r (has_active_lease id now s) else (s, none)

unfoldable pub consume_scoped : String → Scope → ℕ → Store → Store × Option Record
unfolding has_active_lease
consume_scoped id scope now s = consume_scoped_found id scope now s (Table.lookup id s.records)

abbrev peek_unleased : Record → Store × Bool → Store × Option Record
peek_unleased r (s, true) = (s, none)
peek_unleased r (s, false) = (s, some r)

abbrev peek_found : String → Scope → ℕ → Store → Option Record → Store × Option Record
peek_found id scope now s none = (s, none)
peek_found id scope now s (some r) =
    if not (in_scope r scope)
    then (s, none)
    else if not (ltb now r.expires_at)
    then (drop id s, none)
    else peek_unleased r (has_active_lease id now s)

unfoldable pub peek_scoped : String → Scope → ℕ → Store → Store × Option Record
unfolding has_active_lease
peek_scoped id scope now s = peek_found id scope now s (Table.lookup id s.records)

-- a lease of no time at all lasts a nanosecond
abbrev pub lease_time : ℕ → ℕ
lease_time ttl = if leb ttl 0 then 1 else ttl

abbrev lease_unleased : String → String → ℕ → ℕ → Record → Store × Bool → Store × Result Lease
lease_unleased id lease_id ttl now r (s, true) = (s, err in_use)
lease_unleased id lease_id ttl now r (s, false) = (
  record s {
    leases =
        Table.insert id (record { lease_id = lease_id; expires_at = now + lease_time ttl })
          s.leases;
  },
  ok (record { cursor_id = id; lease_id = lease_id; leased = r }),
)

abbrev lease_found : Scope → String → String → ℕ → ℕ → Store → Option Record → Store × Result Lease
lease_found scope id lease_id ttl now s none = (s, err invalid)
lease_found scope id lease_id ttl now s (some r) =
    if not (in_scope r scope)
    then (s, err invalid)
    else if not (ltb now r.expires_at)
    then (drop id s, err invalid)
    else lease_unleased id lease_id ttl now r (has_active_lease id now s)

unfoldable pub lease_scoped : Option String → Scope → String → ℕ → ℕ → Store → Store × Result Lease
unfolding has_active_lease
lease_scoped none scope id ttl now s = (s, err random)
lease_scoped (some lease_id) scope id ttl now s =
    lease_found scope id lease_id ttl now s (Table.lookup id s.records)

abbrev commit_found : Lease → ℕ → Store → Option LeaseRecord → Store × Bool
commit_found l now s none = (s, false)
commit_found l now s (some active) =
    if not (active.lease_id == l.lease_id)
    then (s, false)
    else if not (ltb now active.expires_at)
    then (record s { leases = Table.delete l.cursor_id s.leases }, false)
    else (drop l.cursor_id s, true)

unfoldable pub commit_lease : Lease → ℕ → Store → Store × Bool
commit_lease l now s = commit_found l now s (Table.lookup l.cursor_id s.leases)

abbrev rollback_found : Lease → ℕ → Store → Option LeaseRecord → Store × Bool
rollback_found l now s none = (s, false)
rollback_found l now s (some active) =
    if not (active.lease_id == l.lease_id)
    then (s, false)
    else (record s { leases = Table.delete l.cursor_id s.leases }, ltb now active.expires_at)

unfoldable pub rollback_lease : Lease → ℕ → Store → Store × Bool
rollback_lease l now s = rollback_found l now s (Table.lookup l.cursor_id s.leases)
