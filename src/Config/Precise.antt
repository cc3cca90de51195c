-- ===== src/Config/Precise.antt =====
-- The search for secrets finds nothing else.
use outlook_agent.Prelude.{
  Any, Bool, Bool-cases, List, Option, Option-cases, String, [], any, arith, eq→path, false, inl,
  inr, none, not, refl, some, subst, sym, true, ◌&&◌, ◌++◌, ◌==◌, ◌||◌, ◌∷◌, ◌↔◌, ◌≡◌, ◌⊎◌,
}
use mathlib.Core.List.{append-nil, append_assoc}
use outlook_agent.Prelude.Text.{contains, contains_one, is_blank, is_one_of, trim_space}
use outlook_agent.Url.{Parser}
use outlook_agent.Value.{
  Fields, Items, Value, array, bool, cons, end, field, maps, nil, null, number, object, strings,
  text,
}
use outlook_agent.Config.{
  contains_inline_secret, contains_sensitive_url_fallback, contains_sensitive_url_material,
  contains_sensitive_url_values, contains_url_userinfo, cut_letter, inline_secret_parts,
  fields_contain_secret, is_external_secret_store_name, is_inline_secret_key,
  is_safe_secret_reference_key, items_contain_secret, normalize_config_key, query_parts,
  part_is_secret,
}
use outlook_agent.Config.Secrets.{
  Holds, IsSecretKey, IsSecretPart, IsSecretQuery, IsSecretUrl, Item, Secret, Under, here, in_field,
  in_item, item_here, item_there, itself, plain_key, secret_key, secret_url, there,
}
use outlook_agent.Config.Sound.{contains_inline_secret-of_Secret, normalize-eq}

any-of :
    {A : Type 0} (p : A → Bool) (P : A → Type 0) (xs : List A)
    → ((x : A) → p x ≡ true → P x)
    → any p xs ≡ true
    → Any P xs
any-of p P [] f e = ground arith
any-of p P (x ∷ xs) f e = elim (Bool-cases (p x)) [
  | inl h ↦ Any.here (f x h)
  | inr h ↦ Any.there (any-of p P xs f (ground arith))
]

one_contained :
    (parts : List String) (s : String)
    → contains_one parts s ≡ true
    → Any (λ part. contains part s ≡ true) parts
unfolding contains_one
one_contained [] s e = ground arith
one_contained (p ∷ ps) s e = elim (Bool-cases (contains p s)) [
  | inl h ↦ Any.here h
  | inr h ↦ Any.there (one_contained ps s (ground arith))
]

one_listed :
    (words : List String) (s : String) → is_one_of words s ≡ true → Any (λ word. s ≡ word) words
one_listed [] s e = ground arith
one_listed (p ∷ ps) s e = elim (Bool-cases (s == p)) [
  | inl h ↦ Any.here (eq→path s p h)
  | inr h ↦ Any.there (one_listed ps s (ground arith))
]

-- of two tests one succeeds
||-cases : (a b : Bool) → (a || b) ≡ true → (a ≡ true) ⊎ (b ≡ true)
||-cases true b e = inl refl
||-cases false b e = inr e

named_secret : (key : String) → is_inline_secret_key key ≡ true → IsSecretKey key
unfolding is_inline_secret_key is_safe_secret_reference_key
named_secret key e =
    let f =
      subst
        (λ n.
          (not (is_safe_secret_reference_key n)
            && (contains_one inline_secret_parts n || is_one_of ("token" ∷ "secret" ∷ []) n))
          ≡ true)
        (normalize-eq key) e in
    (
      ground (arith, f),
      elim (||-cases (contains_one inline_secret_parts (plain_key key))
          (is_one_of ("token" ∷ "secret" ∷ []) (plain_key key)) (ground (arith, f))) [
            | inl h ↦ inl (one_contained inline_secret_parts (plain_key key) h)
            | inr h ↦ inr (one_listed ("token" ∷ "secret" ∷ []) (plain_key key) h)
          ],
    )

is_external :
    (path : List String)
    → is_external_secret_store_name path ≡ false
    → path ≡ "secrets" ∷ "external" ∷ []
    → ⊥
unfolding is_external_secret_store_name
is_external path e p = ground (arith, subst (λ x. is_external_secret_store_name x ≡ false) p e)

module _ (parse : Parser) (query_keys : String → Option (List String)) where
  secret_part :
      (part : String) (o : Option (String × String))
      → cut_letter "=" part ≡ o
      → part_is_secret o ≡ true
      → IsSecretPart parse query_keys part
  secret_part part none c e = ground arith
  secret_part part (some (key, value)) c e = (key, value, c, named_secret key e)

  secret_query :
      (encoded : String)
      → contains_sensitive_url_values parse query_keys encoded ≡ true
      → IsSecretQuery parse query_keys encoded
  unfolding contains_sensitive_url_values contains_sensitive_url_fallback
  secret_query encoded e = elim (Bool-cases (is_blank encoded)) [
    | inl b ↦ ground arith
    | inr b ↦ (
      b,
      elim (Option-cases (query_keys encoded)) [
        | inl o ↦ inr (
          o,
          any-of (λ part. part_is_secret (cut_letter "=" part)) (IsSecretPart parse query_keys)
              (query_parts encoded) (λ part h. secret_part part (cut_letter "=" part) refl h)
              (ground (arith, o)),
        )
        | inr (keys, o) ↦
            inl (
              keys,
              o,
              any-of is_inline_secret_key IsSecretKey keys named_secret (ground (arith, o)),
            )
      ],
    )
  ]

  IsSecretUrl-of :
      (s : String)
      → contains_inline_secret parse query_keys (text s) [] ≡ true
      → IsSecretUrl parse query_keys s
  unfolding contains_inline_secret contains_url_userinfo contains_sensitive_url_material
  IsSecretUrl-of s e = elim (Option-cases (parse (trim_space s))) [
    | inl o ↦ ground (arith, o)
    | inr (u, o) ↦ (
      u,
      o,
      ground (arith, o),
      ground (arith, o),
      elim (Bool-cases u.has_user) [
        | inl h ↦ inl h
        | inr h ↦ elim (Bool-cases (contains_sensitive_url_values parse query_keys u.raw_query)) [
          | inl q ↦ inr (inl (secret_query u.raw_query q))
          | inr q ↦ inr (inr (secret_query u.fragment (ground (arith, o))))
        ]
      ],
    )
  ]

  -- a secret somewhere in a value, where these keys are in front
  abbrev Found : Value → List String → Type 0
  Found v front =
      (w : Value) × (path : List String) × Holds w v path
      × Secret parse query_keys w (front ++ path)

  at_root : (v : Value) (front : List String) → Secret parse query_keys v front → Found v front
  at_root v front e =
      (v, [], itself, subst (λ p. Secret parse query_keys v p) (sym (append-nil front)) e)

  -- the key of a field, or a secret in its child
  abbrev FoundField : Fields → List String → Type 0
  FoundField fs front =
      (key : String) × (child : Value) × Under key child fs
      × ((IsSecretKey key × (is_external_secret_store_name front ≡ false))
          ⊎ Found child (front ++ plain_key key ∷ []))

  further :
      (k : String) (v : Value) (rest : Fields) (front : List String)
      → FoundField rest front
      → FoundField (field k v rest) front
  further k v rest front (key, child, u, f) = (key, child, there k v u, f)

  in_object : (fs : Fields) (front : List String) → FoundField fs front → Found (object fs) front
  in_object fs front (key, child, u, inl (e, n)) =
      at_root (object fs) front (secret_key key child u e (is_external front n))
  in_object fs front (key, child, u, inr (w, path, h, e)) = (
    w,
    plain_key key ∷ path,
    in_field key child u h,
    subst (λ p. Secret parse query_keys w p) (append_assoc front (plain_key key ∷ []) path) e,
  )

  abbrev FoundItem : Items → List String → Type 0
  FoundItem items front = (child : Value) × Item child items × Found child front

  in_array :
      (items : Items) (front : List String) → FoundItem items front → Found (array items) front
  in_array items front (child, i, (w, path, h, e)) = (w, path, in_item child i h, e)

  mutual
    unfolding contains_inline_secret

    Found-in :
        (v : Value) (front : List String)
        → contains_inline_secret parse query_keys v front ≡ true
        → Found v front
    Found-in (object fs) front e = in_object fs front (found_field fs front e)
    Found-in (array items) front e = in_array items front (found_element items front e)
    Found-in (text s) front e = at_root (text s) front (secret_url s (IsSecretUrl-of s e))
    Found-in null front e = ground arith
    Found-in (bool b) front e = ground arith
    Found-in (number n) front e = ground arith
    Found-in (strings xs) front e = ground arith
    Found-in (maps items) front e = ground arith

    found_field :
        (fs : Fields) (front : List String)
        → fields_contain_secret parse query_keys fs front ≡ true
        → FoundField fs front
    found_field end front e = ground arith
    found_field (field key child rest) front e =
        let named = not (is_external_secret_store_name front) && is_inline_secret_key key in
        let inside =
          contains_inline_secret parse query_keys child (front ++ normalize_config_key key ∷ []) in
        elim (||-cases (named || inside) (fields_contain_secret parse query_keys rest front) e) [
          | inl h ↦ elim (||-cases named inside h) [
            | inl n ↦
                (key, child, here, inl (named_secret key (ground (arith, n)), ground (arith, n)))
            | inr c ↦ (
              key,
              child,
              here,
              inr (
                  subst (λ k. Found child (front ++ k ∷ [])) (normalize-eq key)
                    (Found-in child (front ++ normalize_config_key key ∷ []) c)),
            )
          ]
          | inr c ↦ further key child rest front (found_field rest front c)
        ]

    found_element :
        (items : Items) (front : List String)
        → items_contain_secret parse query_keys items front ≡ true
        → FoundItem items front
    found_element nil front e = ground arith
    found_element (cons child rest) front e =
        elim (||-cases (contains_inline_secret parse query_keys child front)
          (items_contain_secret parse query_keys rest front) e) [
            | inl c ↦ (child, item_here, Found-in child front c)
            | inr c ↦
                let (other, i, f) = found_element rest front c in (other, item_there child i, f)
          ]

  -- The search refuses a configuration exactly if it has a secret in it, at any depth: the key of a
  -- secret, unless it stands among the names of the external secret stores, or an absolute URL with
  -- userinfo or with the key of a secret in its query or its fragment.
  pub contains_inline_secret_iff :
      (v : Value)
      → (contains_inline_secret parse query_keys v [] ≡ true)
        ↔ ((w : Value) × (path : List String) × Holds w v path × Secret parse query_keys w path)
  contains_inline_secret_iff v = (
    λ e. Found-in v [] e,
    λ (w, path, h, e). contains_inline_secret-of_Secret parse query_keys v w path h e,
  )
