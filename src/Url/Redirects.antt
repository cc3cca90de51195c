-- ===== src/Url/Redirects.antt =====
-- The redirects that the OWA client follows, and where the session goes with them.
use outlook_agent.Prelude.{
  All, All-append, Bool, Bool-cases, List, String, [], arith, eq→path, false, inl, inr, length,
  length-append, ltb→lt, none, true, ◌++◌, ◌<◌, ◌==◌, ◌∷◌, ◌≡◌, ◌≤◌, ◌⊎◌,
}
use outlook_agent.Prelude.Text.{contains, equal_fold, to_lower}
use outlook_agent.Url.{
  Request, Url, check_redirect, has_canary_key, has_session_material, origin_port, same_origin,
  some_unsafe,
}

-- The requests that net/http makes for one call, oldest first: before it follows a redirect it asks
-- the policy about the next request, with those made so far.
pub data Followed (allows : Request → List Request → Bool) : List Request → Type 0 where
  first : (q : Request) → Followed allows (q ∷ [])
  onward :
      (q : Request) (via : List Request)
      → Followed allows via
      → check_redirect allows q via ≡ none
      → Followed allows (via ++ q ∷ [])

-- The port that a URL names, or the one of its scheme, or none.
pub data HasPort (u : Url) : String → Type 0 where
  named : (u.port == "") ≡ false → HasPort u u.port
  http : (u.port == "") ≡ true → to_lower u.scheme ≡ "http" → HasPort u "80"
  https : (u.port == "") ≡ true → to_lower u.scheme ≡ "https" → HasPort u "443"
  other :
      (u.port == "") ≡ true
      → (to_lower u.scheme == "http") ≡ false
      → (to_lower u.scheme == "https") ≡ false
      → HasPort u ""

-- the same scheme and host, whatever their case, and the same port
abbrev pub IsHomeOf : Url → Url → Type 0
IsHomeOf a b =
    (to_lower a.scheme ≡ to_lower b.scheme)
    × (to_lower a.hostname ≡ to_lower b.hostname)
    × ((port : String) × HasPort a port × HasPort b port)

-- no canary header, and no key of the query that names a canary
abbrev pub IsPlain : Request → Type 0
IsPlain q = (q.canary ≡ "") × All (λ key. contains "canary" (to_lower key) ≡ false) q.query_keys

-- A request that follows is for the origin of every earlier one that carried the session.
abbrev pub StayHome : List Request → Type 0
StayHome [] = Unit {0}
StayHome (prior ∷ later) =
    All (λ q. IsPlain prior ⊎ IsHomeOf prior.url q.url) later × StayHome later

has_port : (u : Url) → HasPort u (origin_port u)
unfolding origin_port
has_port u = elim (Bool-cases (u.port == "")) [
  | inr e ↦ rw e (named e)
  | inl e ↦ rw e (elim (Bool-cases (to_lower u.scheme == "http")) [
    | inl h ↦ rw h (http e (eq→path (to_lower u.scheme) "http" h))
    | inr h ↦ rw h (elim (Bool-cases (to_lower u.scheme == "https")) [
      | inl t ↦ rw t (https e (eq→path (to_lower u.scheme) "https" t))
      | inr t ↦ rw t (other e h t)
    ])
  ])
]

same_origin-IsHomeOf : (a b : Url) → same_origin a b ≡ true → IsHomeOf a b
unfolding same_origin equal_fold
same_origin-IsHomeOf a b e = (
  eq→path (to_lower a.scheme) (to_lower b.scheme) (ground arith),
  eq→path (to_lower a.hostname) (to_lower b.hostname) (ground arith),
  (
    origin_port a,
    has_port a,
    rw (eq→path (origin_port a) (origin_port b) (ground arith)) (has_port b),
  ),
)

no_canary_keys :
    (keys : List String)
    → has_canary_key keys ≡ false
    → All (λ key. contains "canary" (to_lower key) ≡ false) keys
unfolding has_canary_key
no_canary_keys [] e = tt
no_canary_keys (key ∷ keys) e = (ground arith, no_canary_keys keys (ground arith))

plain : (q : Request) → has_session_material q ≡ false → IsPlain q
unfolding has_session_material
plain q e = (eq→path q.canary "" (ground arith), no_canary_keys q.query_keys (ground arith))

some_unsafe-All :
    (q : Request) (via : List Request)
    → some_unsafe via q ≡ false
    → All (λ prior. IsPlain prior ⊎ IsHomeOf prior.url q.url) via
unfolding some_unsafe
some_unsafe-All q [] e = tt
some_unsafe-All q (prior ∷ via) e = elim (Bool-cases (has_session_material prior)) [
  | inl m ↦ (
    inr (same_origin-IsHomeOf prior.url q.url (ground arith)),
    some_unsafe-All q via (ground arith),
  )
  | inr m ↦ (inl (plain prior m), some_unsafe-All q via (ground arith))
]

StayHome-onward :
    (q : Request) (via : List Request)
    → StayHome via
    → All (λ prior. IsPlain prior ⊎ IsHomeOf prior.url q.url) via
    → StayHome (via ++ q ∷ [])
StayHome-onward q [] s h = (tt, tt)
StayHome-onward q (prior ∷ via) s h = (
  All-append (λ x. IsPlain prior ⊎ IsHomeOf prior.url x.url) via (q ∷ []) s.0 (h.0, tt),
  StayHome-onward q via s.1 h.1,
)

length-onward : (q : Request) (via : List Request) → length via < 10 → length (via ++ q ∷ []) ≤ 10
length-onward q via e = omega (arith, length-append via (q ∷ []))

-- A call of the OWA client makes at most ten requests, however often it is redirected, and from a
-- request that carried the session, in its canary header or under a key of its query that names a
-- canary, all that follow are for the same scheme, host and port.
pub Followed-StayHome :
    (allows : Request → List Request → Bool) (qs : List Request)
    → Followed allows qs
    → (length qs ≤ 10) × StayHome qs
unfolding check_redirect
Followed-StayHome allows _ (first q) = (omega arith, (tt, tt))
Followed-StayHome allows _ (onward q via f e) =
    let before = Followed-StayHome allows via f in
    (
      length-onward q via (ltb→lt (length via) 10 (ground arith)),
      StayHome-onward q via before.1 (some_unsafe-All q via (ground arith)),
    )
