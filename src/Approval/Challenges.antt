-- ===== src/Approval/Challenges.antt =====
-- What Issue, Validate and Consume do to one challenge, and what a signature must be.
use outlook_agent.Prelude.{
  Bool-cases, Option-cases, String, arith, eq_iff, false, inl, inr, ltb, none, some, sym, true, ℕ,
  ◌<◌, ◌↔◌, ◌∙◌, ◌≡◌, ◌≢◌, ◌⊎◌,
}
use outlook_agent.Prelude.Text.{is_blank, trim_space}
use outlook_agent.Table.{lookup, lookup-delete, lookup-delete_self}
use outlook_agent.Approval.{
  Binding, Challenge, Crypto, Store, binding_eq, build_signing_payload, consume, expired, invalid,
  validate, validate_challenge_token,
}

pub binding_eq_iff : (a b : Binding) → (binding_eq a b ≡ true) ↔ (a ≡ b)
binding_eq_iff a b = ground (
  arith,
  eq_iff a.action b.action,
  eq_iff a.transport b.transport,
  eq_iff a.profile b.profile,
  eq_iff a.payload_fingerprint b.payload_fingerprint,
  eq_iff a.review_fingerprint b.review_fingerprint,
  eq_iff a.safety_class b.safety_class,
)

-- The token is the digest of the challenge's payload under the trimmed, non-blank secret.
abbrev pub IsSigned : Crypto → String → Challenge → String → Type 0
IsSigned k secret c token =
    (is_blank secret ≡ false)
    × (is_blank token ≡ false)
    × (trim_space token ≡ k.mac (trim_space secret) (build_signing_payload k c))

IsSigned-of_validate :
    (k : Crypto) (secret : String) (c : Challenge) (token : String)
    → validate_challenge_token k secret c token ≡ none
    → IsSigned k secret c token
unfolding validate_challenge_token
IsSigned-of_validate k secret c token e = ground (
  arith,
  eq_iff (trim_space c.signing_payload) (build_signing_payload k c),
  eq_iff (trim_space token) (k.mac (trim_space secret) (build_signing_payload k c)),
  eq_iff (trim_space token) (k.mac (trim_space secret) (trim_space c.signing_payload)),
)

missing_invalid :
    (k : Crypto) (id token secret : String) (b : Binding) (now : ℕ) (s : Store)
    → lookup id s.records ≡ none
    → ((validate k id token secret b now s).1 ≡ some invalid)
      × ((consume k id token secret b now s).1 ≡ some invalid)
unfolding validate consume
missing_invalid k id token secret b now s h = (rw h, rw h)

module _ (k : Crypto) (id token secret : String) (b : Binding) (now : ℕ) (s : Store) where
  -- The store holds an unexpired challenge for exactly this binding, and the token is its signature.
  abbrev pub Approves : Type 0
  Approves =
      (c : Challenge) × (lookup id s.records ≡ some c)
      × (now < c.expires_at)
      × (c.binding ≡ b)
      × (validate_challenge_token k (trim_space secret) c token ≡ none)

  Approves-of_validate : (validate k id token secret b now s).1 ≡ none → Approves
  unfolding validate
  Approves-of_validate e = elim (Option-cases (lookup id s.records)) [
    | inl missing ↦ ground (arith, missing)
    | inr (c, found) ↦ (
      c,
      found,
      ground (arith, found),
      ground (arith, found, binding_eq_iff c.binding b),
      ground (arith, found),
    )
  ]

  validate_of_Approves : Approves → (validate k id token secret b now s).1 ≡ none
  unfolding validate
  validate_of_Approves (c, found, fresh, same, signed) =
      ground (arith, found, binding_eq_iff c.binding b)

  -- Validate accepts exactly when the store holds an unexpired challenge whose binding is the one
  -- presented and whose signature the token is.
  pub validate_iff : ((validate k id token secret b now s).1 ≡ none) ↔ Approves
  validate_iff = (Approves-of_validate, validate_of_Approves)

  -- Consume returns what Validate returns.
  consume-validate : (consume k id token secret b now s).1 ≡ (validate k id token secret b now s).1
  unfolding consume
  consume-validate = ground arith

  -- A challenge that is not signed with a non-blank secret is never accepted: where Validate
  -- accepts, the token is the keyed digest of the stored challenge's payload.
  validate-IsSigned :
      (validate k id token secret b now s).1 ≡ none
      → (c : Challenge) × (lookup id s.records ≡ some c) × IsSigned k (trim_space secret) c token
  validate-IsSigned e =
      let (c, found, _, _, signed) = Approves-of_validate e in
      (c, found, IsSigned-of_validate k (trim_space secret) c token signed)

  -- What the operations leave in the store: an accepting Consume takes the challenge out, an expired
  -- one is taken out by either, and nothing else changes.
  pub store-validate :
      (validate k id token secret b now s).1 ≢ some expired
      → (validate k id token secret b now s).0 ≡ s
  unfolding validate
  store-validate h = elim (Option-cases (lookup id s.records)) [
    | inl missing ↦ ground (arith, missing)
    | inr (c, found) ↦ elim (Bool-cases (ltb now c.expires_at)) [
      | inl fresh ↦ ground (arith, found, fresh)
      | inr late ↦ absurd (h (ground (arith, found, late)))
    ]
  ]

  consumed_gone :
      (consume k id token secret b now s).1 ≡ none
      → lookup id (consume k id token secret b now s).0.records ≡ none
  unfolding consume
  consumed_gone e =
      ground (arith, lookup-delete_self id (validate k id token secret b now s).0.records)

  -- After an accepting Consume, every later Validate and Consume of the challenge fails as invalid,
  -- whatever it presents.
  pub consume_once :
      (consume k id token secret b now s).1 ≡ none
      → (token' secret' : String) (b' : Binding) (later : ℕ)
      → let t = (consume k id token secret b now s).0 in
        ((validate k id token' secret' b' later t).1 ≡ some invalid)
        × ((consume k id token' secret' b' later t).1 ≡ some invalid)
  consume_once e token' secret' b' later =
      missing_invalid k id token' secret' b' later (consume k id token secret b now s).0
        (consumed_gone e)

  lookup-validate_le :
      (j : String)
      → (lookup j (validate k id token secret b now s).0.records ≡ none)
        ⊎ (lookup j (validate k id token secret b now s).0.records ≡ lookup j s.records)
  unfolding validate
  lookup-validate_le j = ground (arith, lookup-delete id j s.records)

  pub lookup-consume_le :
      (j : String)
      → (lookup j (consume k id token secret b now s).0.records ≡ none)
        ⊎ (lookup j (consume k id token secret b now s).0.records ≡ lookup j s.records)
  unfolding consume
  lookup-consume_le j = ground (
    arith,
    lookup-validate_le j,
    lookup-delete id j (validate k id token secret b now s).0.records,
  )

  pub held_before :
      (consume k id token secret b now s).1 ≡ none
      → (c : Challenge) × (lookup id s.records ≡ some c)
  held_before e =
      let (c, found, _, _, _) = Approves-of_validate (sym consume-validate ∙ e) in (c, found)
