-- ===== src/Config.antt =====
-- internal/config/config.go: the search for secrets in a configuration file, containsInlineSecret and
-- what it calls. The URL parser and url.ParseQuery, which yields the keys, are parameters.
pub mod Secrets
mod Sound
pub mod Precise
use outlook_agent.Prelude.{
  Bool, Char, List, Option, String, [], any, code, false, if◌then◌else◌, nat_eq, none, not, some,
  ◌&&◌, ◌++◌, ◌==◌, ◌||◌, ◌∷◌,
}
use outlook_agent.Prelude.Text.{
  contains_one, drop_letter, is_blank, is_one_of, to_lower, trim_space,
}
use outlook_agent.Url.{Parser, Url}
use outlook_agent.Value.{
  Fields, Items, Value, array, bool, cons, end, field, maps, nil, null, number, object, strings,
  text,
}

-- normalizeConfigKey: the letters `_`, `-`, `.` and space are taken out
unfoldable pub normalize_config_key : String → String
normalize_config_key key =
    drop_letter 32 (drop_letter 46 (drop_letter 45 (drop_letter 95 (to_lower (trim_space key)))))

unfoldable pub is_safe_secret_reference_key : String → Bool
is_safe_secret_reference_key normalized =
    is_one_of ("secretref" ∷ "secretstore" ∷ "tokenurl" ∷ "devicecodeurl" ∷ []) normalized

abbrev pub inline_secret_parts : List String
inline_secret_parts =
    "password" ∷ "accesstoken" ∷ "refreshtoken" ∷ "clientsecret" ∷ "apikey" ∷ "authorization"
    ∷ "cookie" ∷ "session" ∷ "canary" ∷ []

unfoldable pub is_inline_secret_key : String → Bool
unfolding normalize_config_key is_safe_secret_reference_key
is_inline_secret_key key =
    let normalized = normalize_config_key key in
    not (is_safe_secret_reference_key normalized)
    && (contains_one inline_secret_parts normalized
        || is_one_of ("token" ∷ "secret" ∷ []) normalized)

-- isExternalSecretStoreName
unfoldable pub is_external_secret_store_name : List String → Bool
is_external_secret_store_name (a ∷ b ∷ []) = a == "secrets" && b == "external"
is_external_secret_store_name path = false

-- the text in front of the first such letter, and what follows it
unfoldable pub cut_letter : Char → String → Option (String × String)
cut_letter d String.[] = none
cut_letter d (String.◌∷◌ c s) =
    let rest = cut_letter d s in
    if nat_eq (code c) (code d)
    then some ("", s)
    else elim rest [ none ↦ none | some (front, back) ↦ some (String.◌∷◌ c front, back) ]

abbrev cons_first : Char → List String → List String
cons_first c [] = String.◌∷◌ c String.[] ∷ []
cons_first c (part ∷ parts) = String.◌∷◌ c part ∷ parts

-- the parts between the letters `&` and `;`; empty ones, which strings.FieldsFunc leaves out, hold no
-- `=` and do no harm
unfoldable pub query_parts : String → List String
query_parts String.[] = "" ∷ []
query_parts (String.◌∷◌ c s) =
    let rest = query_parts s in
    if nat_eq (code c) 38 || nat_eq (code c) 59 then "" ∷ rest else cons_first c rest

abbrev pub part_is_secret : Option (String × String) → Bool
part_is_secret none = false
part_is_secret (some (key, value)) = is_inline_secret_key key

unfoldable pub contains_sensitive_url_fallback : String → Bool
unfolding query_parts cut_letter is_inline_secret_key
contains_sensitive_url_fallback encoded =
    any (λ part. part_is_secret (cut_letter "=" part)) (query_parts encoded)

module _ (parse : Parser) (query_keys : String → Option (List String)) where
  abbrev values_are_sensitive : String → Option (List String) → Bool
  values_are_sensitive encoded none = contains_sensitive_url_fallback encoded
  values_are_sensitive encoded (some keys) = any is_inline_secret_key keys

  unfoldable pub contains_sensitive_url_values : String → Bool
  unfolding contains_sensitive_url_fallback is_inline_secret_key
  contains_sensitive_url_values encoded =
      if is_blank encoded then false else values_are_sensitive encoded (query_keys encoded)

  abbrev url_has_userinfo : Option Url → Bool
  url_has_userinfo none = false
  url_has_userinfo (some u) = u.has_user && not (u.scheme == "") && not (u.host == "")

  unfoldable pub contains_url_userinfo : String → Bool
  contains_url_userinfo value = url_has_userinfo (parse (trim_space value))

  abbrev url_is_sensitive : Option Url → Bool
  url_is_sensitive none = false
  url_is_sensitive (some u) =
      not (u.scheme == "")
      && not (u.host == "")
      && (contains_sensitive_url_values u.raw_query || contains_sensitive_url_values u.fragment)

  unfoldable pub contains_sensitive_url_material : String → Bool
  unfolding contains_sensitive_url_values
  contains_sensitive_url_material value = url_is_sensitive (parse (trim_space value))

  unfoldable mutual
    pub contains_inline_secret : Value → List String → Bool
    contains_inline_secret (object fs) path = fields_contain_secret fs path
    contains_inline_secret (array items) path = items_contain_secret items path
    contains_inline_secret (text s) path =
        contains_url_userinfo s || contains_sensitive_url_material s
    contains_inline_secret null path = false
    contains_inline_secret (bool b) path = false
    contains_inline_secret (number n) path = false
    contains_inline_secret (strings xs) path = false
    contains_inline_secret (maps items) path = false

    pub fields_contain_secret : Fields → List String → Bool
    fields_contain_secret end path = false
    fields_contain_secret (field key child rest) path =
        (not (is_external_secret_store_name path) && is_inline_secret_key key)
        || contains_inline_secret child (path ++ normalize_config_key key ∷ [])
        || fields_contain_secret rest path

    pub items_contain_secret : Items → List String → Bool
    items_contain_secret nil path = false
    items_contain_secret (cons child rest) path =
        contains_inline_secret child path || items_contain_secret rest path
