-- ===== src/Manifest.antt =====
-- internal/manifest/manifest.go: mutation manifests with a lifetime. The clock reading `now` and the
-- random identifier are arguments. Slices are copied on the way in and out, so that no caller
-- shares the stored ids.
use outlook_agent.Prelude.{
  Bool, List, Option, Result, String, [], arith, err, false, if◌then◌else◌, leb, ltb, none, not, ok,
  some, true, ℕ, ◌+◌, ◌∷◌, ◌≡◌,
}
use outlook_agent.Prelude.Text.{trim_space}
use outlook_agent.Table
use outlook_agent.Table.{Table, delete, insert, lookup, lookup-delete_self, lookup-insert_self}

pub record Record : Type 0 where
  pub id : String
  pub action : String
  pub ids : List String
  pub mailbox : String
  pub created_at : ℕ
  pub expires_at : ℕ

pub record Store : Type 0 where
  pub records : Table Record

abbrev pub new_store : Store
new_store = record { records = [] }

pub data Error : Type 0 where
  ttl_not_positive no_ids random : Error

abbrev pub is_nil {ℓ} : {A : Type ℓ} → List A → Bool
is_nil [] = true
is_nil (x ∷ xs) = false

abbrev pub stamped : Record → String → ℕ → ℕ → Record
stamped r id ttl now = record r {
  id = id;
  mailbox = trim_space r.mailbox;
  created_at = now;
  expires_at = now + ttl;
}

abbrev issue_id : Record → Option String → ℕ → ℕ → Store → Store × Result Error Record
issue_id r none ttl now s = (s, err random)
issue_id r (some id) ttl now s = (
  record { records = Table.insert id (stamped r id ttl now) s.records },
  ok (stamped r id ttl now),
)

unfoldable pub issue : Record → Option String → ℕ → ℕ → Store → Store × Result Error Record
issue r o ttl now s =
    if leb ttl 0
    then (s, err ttl_not_positive)
    else if is_nil r.ids
    then (s, err no_ids)
    else issue_id r o ttl now s

abbrev get_found : String → ℕ → Store → Option Record → Store × Option Record
get_found id now s none = (s, none)
get_found id now s (some r) =
    if not (ltb now r.expires_at)
    then (record { records = Table.delete id s.records }, none)
    else (s, some r)

unfoldable pub get : String → ℕ → Store → Store × Option Record
get id now s = get_found id now s (Table.lookup id s.records)

-- A manifest that Issue returned is what Get finds, with the ids unchanged, until it expires; from
-- then on Get finds nothing and removes it.
pub get-issue :
    (r : Record) (o : Option String) (ttl now later : ℕ) (s : Store) (out : Record)
    → (issue r o ttl now s).1 ≡ ok out
    → let t = (issue r o ttl now s).0 in
      ((get out.id later t).1 ≡ (if ltb later (now + ttl) then some out else none))
      × (out.ids ≡ r.ids)
      × (out.action ≡ r.action)
      × (ltb later (now + ttl) ≡ false → Table.lookup out.id (get out.id later t).0.records ≡ none)
unfolding issue get
get-issue r none ttl now later s out e = ground arith
get-issue r (some id) ttl now later s out e = ground (
  arith,
  lookup-insert_self id (stamped r id ttl now) s.records,
  lookup-delete_self id (Table.insert id (stamped r id ttl now) s.records),
)
