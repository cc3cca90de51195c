-- ===== src/Graph/Token.antt =====
-- The bearer token of internal/transport/graph/transport.go: bearerToken, expired and
-- refreshTokenCredential, which run under the token's mutex. The secret store, JSON, time stamps and
-- the exchange of a refresh token are parameters.
pub mod Usable
use outlook_agent.Prelude.{
  Bool, Option, Result, String, err, false, if◌then◌else◌, leb, ltb, none, not, ok, some, true, ℕ,
  ◌&&◌, ◌*◌, ◌++ˢ◌, ◌+◌, ◌==◌, ◌||◌,
}
use outlook_agent.Prelude.Text.{has_prefix, is_blank, trim_space}

-- tokenCredential
pub record Credential : Type 0 where
  pub token_type : String
  pub access_token : String
  pub refresh_token : String
  pub expires_at : String
  pub scope : String

-- tokenRefreshResponse, with the status of its response; a lifetime that is not positive is zero
pub record Refreshed : Type 0 where
  pub status : ℕ
  pub token_type : String
  pub access_token : String
  pub refresh_token : String
  pub scope : String
  pub expires_in : ℕ
  pub error_code : String

pub record TokenHost : Type 1 where
  pub World : Type 0
  pub now : World → ℕ × World
  -- secrets.Get; `none` is a store that is not configured
  pub get_secret : Option (World → Result String String × World)
  -- secrets.Put of the encoded credential; `none` is a store that is not writable
  pub put_secret : Option (Credential → World → Option String × World)
  -- json.Unmarshal
  pub decode : String → Result String Credential
  -- time.Parse and Format with RFC3339, in nanoseconds
  pub parse_time : String → Option ℕ
  pub format_time : ℕ → String
  -- tokenURL, and the exchange of the refresh token with the reading of its response
  pub exchange : String → World → Result String Refreshed × World
  pub client_id : String
  -- fmt's %d
  pub decimal : ℕ → String

pub record TokenState (h : TokenHost) : Type 0 where
  pub world : h.World
  -- tokenCached
  pub cached : Option Credential

-- five minutes, in nanoseconds
abbrev pub expiry_margin : ℕ
expiry_margin = 300_000_000_000

-- in nanoseconds
abbrev second : ℕ
second = 1_000_000_000

module _ (h : TokenHost) where
  abbrev pub stale : ℕ → Option ℕ → Bool
  stale now none = true
  stale now (some expires_at) = not (ltb (now + expiry_margin) expires_at)

  -- expired
  unfoldable pub expired : Credential → ℕ → Bool
  expired c now = if is_blank c.expires_at then false else stale now (h.parse_time c.expires_at)

  abbrev or_else : String → String → String
  or_else s fallback = if s == "" then fallback else s

  abbrev http_error : Refreshed → String
  http_error x =
      if x.error_code == ""
      then "graph oauth refresh returned HTTP " ++ˢ h.decimal x.status
      else "graph oauth refresh returned HTTP " ++ˢ h.decimal x.status ++ˢ ": " ++ˢ x.error_code

  abbrev pub renewed : Credential → Refreshed → ℕ → Credential
  renewed c x now = record {
    token_type = or_else x.token_type "Bearer";
    access_token = x.access_token;
    refresh_token = or_else x.refresh_token c.refresh_token;
    scope = or_else x.scope c.scope;
    expires_at = h.format_time (now + (if leb x.expires_in 0 then 3600 else x.expires_in) * second);
  }

  abbrev pub exchanged :
      Credential → Result String Refreshed × h.World → Result String Credential × h.World
  exchanged c (err message, w) = (err message, w)
  exchanged c (ok x, w) =
      if ltb x.status 200 || not (ltb x.status 300)
      then (err (http_error x), w)
      else if is_blank x.access_token
      then (err "graph oauth refresh response missing access_token", w)
      else (let (now, w') = h.now w in (ok (renewed c x now), w'))

  -- refreshTokenCredential
  unfoldable pub refresh_token_credential :
      Credential → h.World → Result String Credential × h.World
  refresh_token_credential c w =
      if is_blank c.refresh_token
      then (err "graph token credential expired and missing refresh_token", w)
      else if is_blank h.client_id
      then (err "graph oauth refresh requires client_id", w)
      else exchanged c (h.exchange c.refresh_token w)

  abbrev pub stored :
      Credential → TokenState h → Option String × h.World → Result String String × TokenState h
  stored c s (some message, w) = (err message, record s { world = w })
  stored c s (none, w) = (ok c.access_token, record { world = w; cached = some c })

  -- the refreshed credential is stored, where the store takes it, and cached
  abbrev pub kept :
      TokenState h → Result String Credential × h.World → Result String String × TokenState h
  kept s (err message, w) = (err message, record s { world = w })
  kept s (ok c, w) = elim h.put_secret [
    | none ↦ stored c s (none, w)
    | some put ↦ stored c s (put c w)
  ]

  abbrev pub held :
      ℕ → TokenState h → Result String Credential → Result String String × TokenState h
  held now s (err message) = (err ("graph token credential: " ++ˢ message), s)
  held now s (ok c) =
      if is_blank c.access_token
      then (err "graph token credential missing access_token", s)
      else if not (expired c now)
      then (ok c.access_token, record s { cached = some c })
      else kept s (refresh_token_credential c s.world)

  abbrev pub read_secret :
      ℕ → TokenState h → Result String String × h.World → Result String String × TokenState h
  read_secret now s (err message, w) = (err message, record s { world = w })
  read_secret now s (ok value, w) =
      let raw = trim_space value in
      if raw == ""
      then (err "graph access token is empty", record s { world = w })
      else if not (has_prefix "{" raw)
      then (ok raw, record s { world = w })
      else held now (record s { world = w }) (h.decode raw)

  abbrev pub fresh_token :
      (h.World → Result String String × h.World)
      → ℕ
      → TokenState h
      → Option Credential
      → Result String String × TokenState h
  fresh_token get now s none = read_secret now s (get s.world)
  fresh_token get now s (some c) =
      if not (is_blank c.access_token) && not (expired c now)
      then (ok c.access_token, s)
      else read_secret now s (get s.world)

  -- bearerToken
  unfoldable pub bearer_token : TokenState h → Result String String × TokenState h
  unfolding expired refresh_token_credential
  bearer_token s = elim h.get_secret [
    | none ↦ (err "secret store is not configured", s)
    | some get ↦
        let (now, w) = h.now s.world in fresh_token get now (record s { world = w }) s.cached
  ]
