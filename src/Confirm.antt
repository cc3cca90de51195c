-- ===== src/Confirm.antt =====
-- internal/confirm/confirm.go: one-time confirmation tokens. The clock reading `now` and the
-- random token are arguments; `json.Marshal` and the digest (SHA-256 under base64) are parameters.
pub mod Tokens
pub mod Traces
use outlook_agent.Prelude.{
  Bool, Option, String, [], false, if◌then◌else◌, ltb, none, not, some, ℕ, ◌++ˢ◌, ◌+◌, ◌==◌,
}
use outlook_agent.Table
use outlook_agent.Table.{Table}
use outlook_agent.Value.{Value}

pub record Binding : Type 0 where
  pub action : String
  pub transport : String
  pub profile : String
  pub payload : Value
  pub unsafe_mode : Bool
  pub safety_class : String
  pub review_fingerprint : String

-- json.Marshal of a binding, which may fail, and base64(sha256(bytes)).
pub record Hashing : Type 0 where
  pub marshal : Binding → Option String
  pub digest : String → String

pub record Record : Type 0 where
  pub fingerprint : String
  pub expires_at : ℕ

pub record Store : Type 0 where
  pub records : Table Record

-- NewStore
abbrev pub new_store : Store
new_store = record { records = [] }

unfoldable pub fingerprint : Hashing → Binding → String
fingerprint h b = h.digest (elim (h.marshal b) [
  | none ↦ b.action ++ˢ "\0" ++ˢ b.transport ++ˢ "\0" ++ˢ b.profile
  | some bytes ↦ bytes
])

-- Generate: `token` is what randomToken returned, `none` its error.
unfoldable pub generate : Hashing → Option String → Binding → ℕ → ℕ → Store → Store × Option String
generate h none b ttl now s = (s, none)
generate h (some token) b ttl now s = (
  record {
    records =
        Table.insert token (record { fingerprint = fingerprint h b; expires_at = now + ttl })
          s.records;
  },
  some token,
)

abbrev pub accept_record : Hashing → Binding → ℕ → Record → Bool
accept_record h b now r =
    if not (ltb now r.expires_at) then false else r.fingerprint == fingerprint h b

-- the rest of Consume, by what the token's lookup gave
abbrev consume_found : Hashing → String → Binding → ℕ → Store → Option Record → Store × Bool
consume_found h token b now s none = (s, false)
consume_found h token b now s (some r) =
    (record { records = Table.delete token s.records }, accept_record h b now r)

unfoldable pub consume : Hashing → String → Binding → ℕ → Store → Store × Bool
consume h token b now s = consume_found h token b now s (Table.lookup token s.records)
