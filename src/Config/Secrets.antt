-- ===== src/Config/Secrets.antt =====
-- The secrets that a configuration may hold, and the places where they stand.
use outlook_agent.Prelude.{
  Any, List, Option, String, [], code, false, if◌then◌else◌, nat_eq, none, some, true, ◌==◌, ◌||◌,
  ◌∷◌, ◌≡◌, ◌⊎◌,
}
use outlook_agent.Prelude.Text.{contains, is_blank, is_one_of, to_lower, trim_space}
use outlook_agent.Url.{Parser, Url}
use outlook_agent.Value.{Fields, Items, Value, array, cons, field, object, text}
use outlook_agent.Config.{cut_letter, query_parts}

-- a key's letters but for `_`, `-`, `.` and the space
abbrev pub bare : String → String
bare String.[] = String.[]
bare (String.◌∷◌ c s) =
    let rest = bare s in
    if nat_eq (code c) 95 || nat_eq (code c) 45 || nat_eq (code c) 46 || nat_eq (code c) 32
    then rest
    else String.◌∷◌ c rest

abbrev pub plain_key : String → String
plain_key key = bare (to_lower (trim_space key))

-- the key of a secret: it names a secret, and is not a reference to one
abbrev pub IsSecretKey : String → Type 0
IsSecretKey key =
    (is_one_of ("secretref" ∷ "secretstore" ∷ "tokenurl" ∷ "devicecodeurl" ∷ []) (plain_key key)
      ≡ false)
    × (Any (λ part. contains part (plain_key key) ≡ true)
          ("password" ∷ "accesstoken" ∷ "refreshtoken" ∷ "clientsecret" ∷ "apikey" ∷ "authorization"
            ∷ "cookie" ∷ "session" ∷ "canary" ∷ [])
        ⊎ Any (λ word. plain_key key ≡ word) ("token" ∷ "secret" ∷ []))

-- the value stands under the key
pub data Under (key : String) (child : Value) : Fields → Type 0 where
  here : {rest : Fields} → Under key child (field key child rest)
  there :
      {rest : Fields} (k : String) (v : Value)
      → Under key child rest
      → Under key child (field k v rest)

pub data Item (child : Value) : Items → Type 0 where
  item_here : {rest : Items} → Item child (cons child rest)
  item_there : {rest : Items} (v : Value) → Item child rest → Item child (cons v rest)

-- The value has the other one in it, under these keys; the elements of a list have the list's keys.
pub data Holds (w : Value) : Value → List String → Type 0 where
  itself : Holds w w []
  in_field :
      {fs : Fields} {path : List String} (key : String) (child : Value)
      → Under key child fs
      → Holds w child path
      → Holds w (object fs) (plain_key key ∷ path)
  in_item :
      {items : Items} {path : List String} (child : Value)
      → Item child items
      → Holds w child path
      → Holds w (array items) path

module _ (parse : Parser) (query_keys : String → Option (List String)) where
  -- a part of a query that is not well formed, up to its `=`
  abbrev pub IsSecretPart : String → Type 0
  IsSecretPart part =
      (key : String) × (value : String) × (cut_letter "=" part ≡ some (key, value))
      × IsSecretKey key

  -- the key of a secret in a query, or in a text that is not a well-formed one
  abbrev pub IsSecretQuery : String → Type 0
  IsSecretQuery encoded =
      (is_blank encoded ≡ false)
      × (((keys : List String) × (query_keys encoded ≡ some keys) × Any IsSecretKey keys)
          ⊎ ((query_keys encoded ≡ none) × Any IsSecretPart (query_parts encoded)))

  -- an absolute URL with userinfo, or with the key of a secret in its query or its fragment
  abbrev pub IsSecretUrl : String → Type 0
  IsSecretUrl s =
      (u : Url) × (parse (trim_space s) ≡ some u)
      × ((u.scheme == "") ≡ false)
      × ((u.host == "") ≡ false)
      × ((u.has_user ≡ true) ⊎ IsSecretQuery u.raw_query ⊎ IsSecretQuery u.fragment)

  -- A secret that stands in a value under these keys: the key of one, but for the names of the external
  -- stores, or a URL.
  pub data Secret : Value → List String → Type 0 where
    secret_key :
        {fs : Fields} {path : List String} (key : String) (child : Value)
        → Under key child fs
        → IsSecretKey key
        → (path ≡ "secrets" ∷ "external" ∷ [] → ⊥)
        → Secret (object fs) path
    secret_url : {path : List String} (s : String) → IsSecretUrl s → Secret (text s) path
