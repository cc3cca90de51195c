-- ===== src/Config/Sound.antt =====
-- The search for secrets finds each of them.
use outlook_agent.Prelude.{
  Any, Bool-cases, List, Option, String, [], any, ap, arith, code, eq→path, false, inl, inr, nat_eq,
  path→eq, refl, subst, sym, true, ◌&&◌, ◌++◌, ◌==◌, ◌∷◌, ◌≡◌,
}
use mathlib.Core.List.{append-nil, append_assoc}
use outlook_agent.Prelude.Text.{
  contains, contains_one, drop_letter, is_one_of, to_lower, trim_space,
}
use outlook_agent.Url.{Parser}
use outlook_agent.Value.{Fields, Items, Value, text}
use outlook_agent.Config.{
  contains_inline_secret, contains_sensitive_url_fallback, contains_sensitive_url_material,
  contains_sensitive_url_values, contains_url_userinfo, cut_letter, fields_contain_secret,
  is_external_secret_store_name, is_inline_secret_key, is_safe_secret_reference_key,
  items_contain_secret, normalize_config_key, query_parts, part_is_secret,
}
use outlook_agent.Config.Secrets.{
  Holds, IsSecretKey, IsSecretPart, IsSecretQuery, IsSecretUrl, Item, Secret, Under, bare, here,
  in_field, in_item, item_here, item_there, itself, plain_key, secret_key, secret_url, there,
}

plain_key-eq :
    (s : String) → drop_letter 32 (drop_letter 46 (drop_letter 45 (drop_letter 95 s))) ≡ bare s
unfolding drop_letter
plain_key-eq String.[] = refl
plain_key-eq (String.◌∷◌ c s) = elim (Bool-cases (nat_eq (code c) 95)) [
  | inl a ↦ rw a (plain_key-eq s)
  | inr a ↦ rw a (elim (Bool-cases (nat_eq (code c) 45)) [
    | inl b ↦ rw b (plain_key-eq s)
    | inr b ↦ rw b (elim (Bool-cases (nat_eq (code c) 46)) [
      | inl d ↦ rw d (plain_key-eq s)
      | inr d ↦ rw d (elim (Bool-cases (nat_eq (code c) 32)) [
        | inl e ↦ rw e (plain_key-eq s)
        | inr e ↦ rw e (ap (λ t. String.◌∷◌ c t) (plain_key-eq s))
      ])
    ])
  ])
]

pub normalize-eq : (key : String) → normalize_config_key key ≡ plain_key key
unfolding normalize_config_key
normalize-eq key = plain_key-eq (to_lower (trim_space key))

contains_one-of :
    (parts : List String) (s : String)
    → Any (λ part. contains part s ≡ true) parts
    → contains_one parts s ≡ true
unfolding contains_one
contains_one-of [] s k = elim k [ ]
contains_one-of (p ∷ ps) s (Any.here e) = rw e refl
contains_one-of (p ∷ ps) s (Any.there k) = ground (arith, contains_one-of ps s k)

is_one_of-of :
    (words : List String) (s : String) → Any (λ word. s ≡ word) words → is_one_of words s ≡ true
is_one_of-of [] s k = elim k [ ]
is_one_of-of (p ∷ ps) s (Any.here e) = ground (arith, path→eq s p e)
is_one_of-of (p ∷ ps) s (Any.there k) = ground (arith, is_one_of-of ps s k)

found_key : (key : String) → IsSecretKey key → is_inline_secret_key key ≡ true
unfolding is_inline_secret_key is_safe_secret_reference_key
found_key key (safe, named) = rw (normalize-eq key) (elim named [
  | inl part ↦ rw safe (ground (arith, contains_one-of _ (plain_key key) part))
  | inr word ↦ rw safe (ground (arith, is_one_of-of _ (plain_key key) word))
])

module _ (parse : Parser) (query_keys : String → Option (List String)) where
  found_keys : (keys : List String) → Any IsSecretKey keys → any is_inline_secret_key keys ≡ true
  found_keys [] k = elim k [ ]
  found_keys (key ∷ keys) (Any.here e) = rw (found_key key e) refl
  found_keys (key ∷ keys) (Any.there k) = ground (arith, found_keys keys k)

  found_parts :
      (parts : List String)
      → Any (IsSecretPart parse query_keys) parts
      → any (λ part. part_is_secret (cut_letter "=" part)) parts ≡ true
  found_parts [] k = elim k [ ]
  found_parts (part ∷ parts) (Any.here (key, value, e, secret)) = rw (e, found_key key secret) refl
  found_parts (part ∷ parts) (Any.there k) = ground (arith, found_parts parts k)

  found_query :
      (encoded : String)
      → IsSecretQuery parse query_keys encoded
      → contains_sensitive_url_values parse query_keys encoded ≡ true
  unfolding contains_sensitive_url_values contains_sensitive_url_fallback
  found_query encoded (b, inl (keys, e, k)) = rw (b, e) (found_keys keys k)
  found_query encoded (b, inr (e, k)) = rw (b, e) (found_parts (query_parts encoded) k)

  found_url :
      (s : String)
      → IsSecretUrl parse query_keys s
      → contains_inline_secret parse query_keys (text s) [] ≡ true
  unfolding contains_inline_secret contains_url_userinfo contains_sensitive_url_material
  found_url s (u, e, scheme, host, inl user) = rw (e, scheme, host, user) refl
  found_url s (u, e, scheme, host, inr (inl q)) =
      rw (e, scheme, host, found_query u.raw_query q) (ground arith)
  found_url s (u, e, scheme, host, inr (inr q)) =
      rw (e, scheme, host, found_query u.fragment q) (ground arith)

  not_external :
      (path : List String)
      → (path ≡ "secrets" ∷ "external" ∷ [] → ⊥)
      → is_external_secret_store_name path ≡ false
  unfolding is_external_secret_store_name
  not_external [] n = refl
  not_external (a ∷ []) n = refl
  not_external (a ∷ b ∷ []) n = elim (Bool-cases (a == "secrets" && b == "external")) [
    | inl e ↦
        absurd
          (n (rw (eq→path a "secrets" (ground arith), eq→path b "external" (ground arith)) refl))
    | inr e ↦ e
  ]
  not_external (a ∷ b ∷ c ∷ rest) n = refl

  found_name :
      (key : String) (child : Value) (fs : Fields) (path : List String)
      → Under key child fs
      → is_inline_secret_key key ≡ true
      → is_external_secret_store_name path ≡ false
      → fields_contain_secret parse query_keys fs path ≡ true
  unfolding contains_inline_secret
  found_name key child _ path (here) e n = rw (n, e) refl
  found_name key child _ path (there {rest} k v u) e n =
      ground (arith, found_name key child rest path u e n)

  found_child :
      (key : String) (child : Value) (fs : Fields) (path : List String)
      → Under key child fs
      → contains_inline_secret parse query_keys child (path ++ plain_key key ∷ []) ≡ true
      → fields_contain_secret parse query_keys fs path ≡ true
  unfolding contains_inline_secret
  found_child key child _ path (here) e = rw (normalize-eq key, e) (ground arith)
  found_child key child _ path (there {rest} k v u) e =
      ground (arith, found_child key child rest path u e)

  found_element :
      (child : Value) (items : Items) (path : List String)
      → Item child items
      → contains_inline_secret parse query_keys child path ≡ true
      → items_contain_secret parse query_keys items path ≡ true
  unfolding contains_inline_secret
  found_element child _ path (item_here) e = rw e refl
  found_element child _ path (item_there {rest} v u) e =
      ground (arith, found_element child rest path u e)

  is_found :
      (w : Value) (path : List String)
      → Secret parse query_keys w path
      → contains_inline_secret parse query_keys w path ≡ true
  unfolding contains_inline_secret
  is_found _ path (secret_key {fs} key child u e n) =
      found_name key child fs path u (found_key key e) (not_external path n)
  is_found _ path (secret_url s e) = found_url s e

  found_inside :
      (w v : Value) (front path : List String)
      → Holds w v path
      → contains_inline_secret parse query_keys w (front ++ path) ≡ true
      → contains_inline_secret parse query_keys v front ≡ true
  unfolding contains_inline_secret
  found_inside w _ front _ (itself) e =
      subst (λ p. contains_inline_secret parse query_keys w p ≡ true) (append-nil front) e
  found_inside w _ front _ (in_field {fs} {path} key child u h) e =
      found_child key child fs front u (
        found_inside w child (front ++ plain_key key ∷ []) path h (
          subst (λ p. contains_inline_secret parse query_keys w p ≡ true)
            (sym (append_assoc front (plain_key key ∷ []) path)) e))
  found_inside w _ front path (in_item {items} child u h) e =
      found_element child items front u (found_inside w child front path h e)

  -- The search finds every secret of a configuration, at any depth: the key of a secret, unless it
  -- stands among the names of the external secret stores, and an absolute URL with userinfo or with
  -- the key of a secret in its query or its fragment.
  pub contains_inline_secret-of_Secret :
      (v w : Value) (path : List String)
      → Holds w v path
      → Secret parse query_keys w path
      → contains_inline_secret parse query_keys v [] ≡ true
  contains_inline_secret-of_Secret v w path h e = found_inside w v [] path h (is_found w path e)
