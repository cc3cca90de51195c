-- ===== src/Confirm/Tokens.antt =====
-- What one call of Generate or Consume does to the tokens.
use outlook_agent.Prelude.{
  Option-cases, String, arith, eq_iff, eq_refl, false, if◌then◌else◌, inl, inr, ltb, none, some,
  true, ℕ, ◌&&◌, ◌+◌, ◌<◌, ◌==◌, ◌↔◌, ◌≡◌,
}
use outlook_agent.Table.{lookup, lookup-delete, lookup-insert, lookup-insert_self}
use outlook_agent.Confirm.{
  Binding, Hashing, Record, Store, accept_record, consume, fingerprint, generate,
}

-- The token stands for this binding and has not expired.
abbrev pub Grants : Hashing → String → Binding → ℕ → Store → Type 0
Grants h token b now s =
    (r : Record) × (lookup token s.records ≡ some r)
    × (now < r.expires_at)
    × (r.fingerprint ≡ fingerprint h b)

module _ (h : Hashing) (token : String) (b : Binding) (now : ℕ) (s : Store) where
  Grants-of_consume : (consume h token b now s).1 ≡ true → Grants h token b now s
  unfolding consume
  Grants-of_consume e = elim (Option-cases (lookup token s.records)) [
    | inl missing ↦ cc (rw missing at e)
    | inr (r, found) ↦
        let e' : accept_record h b now r ≡ true = rw found at e in
        (r, found, ground arith, ground (arith, eq_iff r.fingerprint (fingerprint h b)))
  ]

  consume_of_Grants : Grants h token b now s → (consume h token b now s).1 ≡ true
  unfolding consume
  consume_of_Grants (r, found, fresh, same) =
      rw found (ground (arith, eq_iff r.fingerprint (fingerprint h b)))

  -- Consume returns true exactly when the store holds the token with the binding's fingerprint and
  -- the clock is before the expiry.
  pub consume_iff : ((consume h token b now s).1 ≡ true) ↔ Grants h token b now s
  consume_iff = (Grants-of_consume, consume_of_Grants)

  -- After Consume, whatever it returned, the token is gone and every other token is as it was.
  pub lookup-consume :
      (j : String)
      → lookup j (consume h token b now s).0.records
        ≡ (if token == j then none else lookup j s.records)
  unfolding consume
  lookup-consume j = elim (Option-cases (lookup token s.records)) [
    | inl missing ↦ rw missing (ground (arith, eq_iff token j))
    | inr (r, found) ↦ rw found (lookup-delete token j s.records)
  ]

pub lookup-generate :
    (h : Hashing) (token : String) (b : Binding) (ttl now : ℕ) (s : Store) (j : String)
    → lookup j (generate h (some token) b ttl now s).0.records ≡ (
        if token == j
        then some (record { fingerprint = fingerprint h b; expires_at = now + ttl })
        else lookup j s.records)
unfolding generate
lookup-generate h token b ttl now s j = lookup-insert token j _ s.records

-- A token generated for one binding is accepted, with the binding `c` presented at the reading
-- `later`, exactly when it has not expired and the two bindings have one fingerprint.
pub consume-generate :
    (h : Hashing) (token : String) (b c : Binding) (ttl now later : ℕ) (s : Store)
    → (consume h token c later (generate h (some token) b ttl now s).0).1
      ≡ (ltb later (now + ttl) && (fingerprint h b == fingerprint h c))
unfolding consume generate
consume-generate h token b c ttl now later s =
    rw
      (lookup-insert_self token (record { fingerprint = fingerprint h b; expires_at = now + ttl })
        s.records)
      (ground arith)

consume_missing :
    (h : Hashing) (token : String) (b : Binding) (now : ℕ) (s : Store)
    → lookup token s.records ≡ none
    → (consume h token b now s).1 ≡ false
unfolding consume
consume_missing h token b now s e = rw e

-- A second Consume of the same token fails, whatever the first one returned and whatever binding
-- either presents.
pub consume_twice :
    (h : Hashing) (token : String) (b c : Binding) (now later : ℕ) (s : Store)
    → (consume h token c later (consume h token b now s).0).1 ≡ false
consume_twice h token b c now later s =
    consume_missing h token c later _ (rw (lookup-consume h token b now s token, eq_refl token))
