-- ===== src/Graph/RawRequest/Bearer.antt =====
-- The credential of a raw request is the client's own.
use outlook_agent.Prelude.{
  Bool, Bool-cases, List, Result, String, [], arith, eq_refl, eq→path, err, false, inl, inr, none,
  ok, refl, some, subst, sym, true, ◌∙◌, ◌++ˢ◌, ◌==◌, ◌∷◌, ◌≡◌,
}
use outlook_agent.Prelude.Text.{is_one_of, to_lower, trim_space}
use outlook_agent.Table.{Table, lookup, lookup-insert, lookup-insert_self}
use outlook_agent.Value.{Fields, Value, end, field, object, text}
use outlook_agent.Graph.RawRequest.{
  HeaderError, add_header, header_fields, is_reserved, own_headers, raw_graph_headers,
  request_headers, reserved_headers, set, set_all, with_header,
}

-- None of the headers has a reserved name.
abbrev AreFree : List (String × String) → Type 0
AreFree [] = Unit {0}
AreFree ((key, value) ∷ rest) = (is_reserved key ≡ false) × AreFree rest

abbrev AllFree : Result HeaderError (List (String × String)) → Type 0
AllFree (err e) = Unit {0}
AllFree (ok headers) = AreFree headers

AllFree-with_header :
    (key value : String) (rest : Result HeaderError (List (String × String)))
    → is_reserved key ≡ false
    → AllFree rest
    → AllFree (with_header key value rest)
AllFree-with_header key value (err e) free h = tt
AllFree-with_header key value (ok headers) free h = (free, h)

AllFree-add_header :
    (key : String) (v : Value) (rest : Result HeaderError (List (String × String)))
    → is_reserved key ≡ false
    → AllFree rest
    → AllFree (add_header key v rest)
AllFree-add_header key (text value) rest free h = AllFree-with_header key value rest free h
AllFree-add_header key v rest free h = tt

AllFree-header_fields : (fs : Fields) → AllFree (header_fields fs)
unfolding header_fields
AllFree-header_fields end = tt
AllFree-header_fields (field key v fs) = elim (Bool-cases (is_reserved key)) [
  | inl taken ↦ rw taken tt
  | inr free ↦ rw free (AllFree-add_header key v (header_fields fs) free (AllFree-header_fields fs))
]

AllFree-raw : (v : Value) → AllFree (raw_graph_headers v)
unfolding raw_graph_headers
AllFree-raw (object fs) = AllFree-header_fields fs
AllFree-raw v = tt

-- Two header names that net/http takes for one differ at most in the case of their letters.
abbrev pub FoldsCase : (String → String) → Type 0
FoldsCase canonical =
    (k j : String) → canonical k ≡ canonical j → to_lower (trim_space k) ≡ to_lower (trim_space j)

module _ (canonical : String → String) (folds : FoldsCase canonical) where
  apart :
      (k j : String)
      → (to_lower (trim_space k) == to_lower (trim_space j)) ≡ false
      → (canonical k == canonical j) ≡ false
  apart k j e = elim (Bool-cases (canonical k == canonical j)) [
    | inl same ↦
        let lowered = folds k j (eq→path (canonical k) (canonical j) same) in
        absurd (ground (arith, e, eq_refl (to_lower (trim_space j)), lowered))
    | inr e ↦ e
  ]

  apart_of_reserved :
      (k j : String)
      → is_reserved k ≡ false
      → is_reserved j ≡ true
      → (canonical k == canonical j) ≡ false
  unfolding is_reserved
  apart_of_reserved k j free taken = elim (Bool-cases (canonical k == canonical j)) [
    | inl same ↦
        let lowered = folds k j (eq→path (canonical k) (canonical j) same) in
        let still = subst (λ x. is_one_of reserved_headers x ≡ false) lowered free in
        absurd (ground (arith, sym taken ∙ still))
    | inr e ↦ e
  ]

  lookup-set_all :
      (name : String) (headers : List (String × String)) (own : Table String)
      → is_reserved name ≡ true
      → AreFree headers
      → lookup (canonical name) (set_all canonical headers own) ≡ lookup (canonical name) own
  unfolding set_all
  lookup-set_all name [] own taken h = refl
  lookup-set_all name ((key, value) ∷ rest) own taken h =
      lookup-set_all name rest (set canonical key value own) taken h.1
      ∙ rw
          (
            lookup-insert (canonical key) (canonical name) value own,
            apart_of_reserved key name h.0 taken,
          )
          refl

  -- the headers that the client sets itself are those that it sends, and there is no cookie
  abbrev pub IsOwn : String → Table String → Type 0
  IsOwn token sent =
      (lookup (canonical "Authorization") sent ≡ some ("Bearer " ++ˢ token))
      × (lookup (canonical "Accept") sent ≡ some "application/json")
      × (lookup (canonical "User-Agent") sent ≡ some "outlook-agent")
      × (lookup (canonical "Cookie") sent ≡ none)

  passes :
      (k j value : String) (headers : Table String)
      → (to_lower (trim_space k) == to_lower (trim_space j)) ≡ false
      → lookup (canonical j) (set canonical k value headers) ≡ lookup (canonical j) headers
  passes k j value headers e =
      rw (lookup-insert (canonical k) (canonical j) value headers, apart k j e) refl

  found :
      (k value : String) (headers : Table String)
      → lookup (canonical k) (set canonical k value headers) ≡ some value
  found k value headers = lookup-insert_self (canonical k) value headers

  bodyless-IsOwn : (token : String) → IsOwn token (own_headers canonical token false)
  unfolding own_headers lookup to_lower trim_space
  bodyless-IsOwn token = (
    passes "User-Agent" "Authorization" _ _ refl
        ∙ passes "Accept" "Authorization" _ _ refl
        ∙ found "Authorization" _ _,
    passes "User-Agent" "Accept" _ _ refl ∙ found "Accept" _ _,
    found "User-Agent" _ _,
    passes "User-Agent" "Cookie" _ _ refl
        ∙ passes "Accept" "Cookie" _ _ refl
        ∙ passes "Authorization" "Cookie" _ _ refl,
  )

  with_body-IsOwn :
      (token : String) (headers : Table String)
      → IsOwn token headers
      → IsOwn token (set canonical "Content-Type" "application/json" headers)
  unfolding to_lower trim_space
  with_body-IsOwn token headers (a, b, c, d) = (
    passes "Content-Type" "Authorization" _ _ refl ∙ a,
    passes "Content-Type" "Accept" _ _ refl ∙ b,
    passes "Content-Type" "User-Agent" _ _ refl ∙ c,
    passes "Content-Type" "Cookie" _ _ refl ∙ d,
  )

  own_headers-IsOwn :
      (token : String) (has_body : Bool) → IsOwn token (own_headers canonical token has_body)
  unfolding own_headers
  own_headers-IsOwn token true = with_body-IsOwn token _ (bodyless-IsOwn token)
  own_headers-IsOwn token false = bodyless-IsOwn token

  set_all-IsOwn :
      (token : String) (headers : List (String × String)) (own : Table String)
      → AreFree headers
      → IsOwn token own
      → IsOwn token (set_all canonical headers own)
  unfolding is_reserved to_lower trim_space
  set_all-IsOwn token headers own h (a, b, c, d) = (
    lookup-set_all "Authorization" headers own refl h ∙ a,
    lookup-set_all "Accept" headers own refl h ∙ b,
    lookup-set_all "User-Agent" headers own refl h ∙ c,
    lookup-set_all "Cookie" headers own refl h ∙ d,
  )

  -- Where the headers that the caller of a raw request names are accepted, the headers of the request
  -- hold the bearer token and the client's own Accept and User-Agent, and no cookie, whatever the
  -- caller names. This holds if two names that net/http takes for one differ at most in case.
  pub raw_headers-IsOwn :
      (v : Value) (headers : List (String × String)) (token : String) (has_body : Bool)
      → raw_graph_headers v ≡ ok headers
      → IsOwn token (request_headers canonical token has_body headers)
  unfolding request_headers
  raw_headers-IsOwn v headers token has_body e =
      set_all-IsOwn token headers (own_headers canonical token has_body)
        (subst AllFree e (AllFree-raw v)) (own_headers-IsOwn token has_body)
