-- ===== src/Graph/Token/Usable.antt =====
-- What bearerToken returns.
use outlook_agent.Prelude.{
  Bool-cases, Option, Option-cases, Result, String, arith, eq→path, err, false, inl, inr, none, ok,
  refl, some, subst, ℕ, ◌==◌, ◌≡◌,
}
use outlook_agent.Prelude.Text.{has_prefix, is_blank, trim_left, trim_right, trim_space}
use outlook_agent.Graph.Token.{
  Credential, Refreshed, TokenHost, TokenState, bearer_token, exchanged, expired, fresh_token, held,
  kept, read_secret, refresh_token_credential, stored,
}

not_empty : (s : String) → is_blank s ≡ false → (s == "") ≡ false
unfolding trim_space trim_left trim_right
not_empty s b = elim (Bool-cases (s == "")) [
  | inl e ↦ absurd (ground (arith, subst (λ x. is_blank x ≡ false) (eq→path s "" e) b))
  | inr e ↦ e
]

module _ (h : TokenHost) where
  -- A credential that may be used: its access token is not blank.
  abbrev pub IsUsable : Credential → Type 0
  IsUsable c = is_blank c.access_token ≡ false

  exchanged-IsUsable :
      (c out : Credential) (p : Result String Refreshed × h.World)
      → (exchanged h c p).0 ≡ ok out
      → IsUsable out
  exchanged-IsUsable c out (err message, w) e = ground arith
  exchanged-IsUsable c out (ok x, w) e = ground arith

  refresh-IsUsable :
      (c out : Credential) (w : h.World)
      → (refresh_token_credential h c w).0 ≡ ok out
      → IsUsable out
  unfolding refresh_token_credential
  refresh-IsUsable c out w e = elim (Bool-cases (is_blank c.refresh_token)) [
    | inl b ↦ ground arith
    | inr b ↦ elim (Bool-cases (is_blank h.client_id)) [
      | inl d ↦ ground arith
      | inr d ↦ exchanged-IsUsable c out (h.exchange c.refresh_token w) (ground arith)
    ]
  ]

  -- the cached credential, if there is one, may be used
  abbrev pub HoldsUsable : Option Credential → Type 0
  HoldsUsable none = Unit {0}
  HoldsUsable (some c) = IsUsable c

  -- the token returned is not empty, and the cache may be used
  abbrev pub IsGood : Result String String × TokenState h → Type 0
  IsGood (ok token, s) = ((token == "") ≡ false) × HoldsUsable s.cached
  IsGood (err message, s) = HoldsUsable s.cached

  stored-IsGood :
      (c : Credential) (s : TokenState h) (p : Option String × h.World)
      → IsUsable c
      → HoldsUsable s.cached
      → IsGood (stored h c s p)
  stored-IsGood c s (some message, w) u k = k
  stored-IsGood c s (none, w) u k = (not_empty c.access_token u, u)

  kept-IsGood :
      (s : TokenState h) (p : Result String Credential × h.World)
      → ((out : Credential) → p.0 ≡ ok out → IsUsable out)
      → HoldsUsable s.cached
      → IsGood (kept h s p)
  kept-IsGood s (err message, w) u k = k
  kept-IsGood s (ok c, w) u k = elim (Option-cases h.put_secret) [
    | inl e ↦ rw e (stored-IsGood c s (none, w) (u c refl) k)
    | inr (put, e) ↦ rw e (stored-IsGood c s (put c w) (u c refl) k)
  ]

  held-IsGood :
      (now : ℕ) (s : TokenState h) (x : Result String Credential)
      → HoldsUsable s.cached
      → IsGood (held h now s x)
  held-IsGood now s (err message) k = k
  held-IsGood now s (ok c) k = elim (Bool-cases (is_blank c.access_token)) [
    | inl b ↦ rw b k
    | inr b ↦ rw b (elim (Bool-cases (expired h c now)) [
      | inl x ↦ rw x (
          kept-IsGood s (refresh_token_credential h c s.world)
            (λ out e. refresh-IsUsable c out s.world e) k)
      | inr x ↦ rw x (not_empty c.access_token b, b)
    ])
  ]

  read_secret-IsGood :
      (now : ℕ) (s : TokenState h) (p : Result String String × h.World)
      → HoldsUsable s.cached
      → IsGood (read_secret h now s p)
  read_secret-IsGood now s (err message, w) k = k
  read_secret-IsGood now s (ok value, w) k =
      let raw = trim_space value in
      let t = record s { world = w } in
      elim (Bool-cases (raw == "")) [
        | inl e ↦ rw e k
        | inr e ↦ rw e (elim (Bool-cases (has_prefix "{" raw)) [
          | inl j ↦ rw j (held-IsGood now t (h.decode raw) k)
          | inr j ↦ rw j (e, k)
        ])
      ]

  fresh_token-IsGood :
      (get : h.World → Result String String × h.World) (now : ℕ) (s : TokenState h)
      (o : Option Credential)
      → HoldsUsable o
      → HoldsUsable s.cached
      → IsGood (fresh_token h get now s o)
  fresh_token-IsGood get now s none u k = read_secret-IsGood now s (get s.world) k
  fresh_token-IsGood get now s (some c) u k = elim (Bool-cases (expired h c now)) [
    | inl x ↦ rw (u, x) (read_secret-IsGood now s (get s.world) k)
    | inr x ↦ rw (u, x) (not_empty c.access_token u, k)
  ]

  -- If the cached credential, where there is one, has a token that is not blank, the same holds
  -- after bearerToken, whether it fails or not, and a token that it returns is not empty.
  pub bearer_token-IsGood : (s : TokenState h) → HoldsUsable s.cached → IsGood (bearer_token h s)
  unfolding bearer_token
  bearer_token-IsGood s k = elim (Option-cases h.get_secret) [
    | inl e ↦ rw e k
    | inr (get, e) ↦
        let ran = h.now s.world in
        rw e (fresh_token-IsGood get ran.0 (record s { world = ran.1 }) s.cached k k)
  ]
