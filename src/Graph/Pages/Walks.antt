-- ===== src/Graph/Pages/Walks.antt =====
-- What a paginated read reads, and what it returns.
use outlook_agent.Prelude.{
  ap, arith, Bool, Bool-cases, List, Option, Result, Result-cases, String, [], err, false, inl, inr,
  length, none, ok, refl, some, suc, true, zero, ℕ, ◌++◌, ◌∙◌, ◌∷◌, ◌≡◌, ◌≤◌,
}
use mathlib.Core.List.{append_assoc}
use outlook_agent.Prelude.Text.{is_blank}
use outlook_agent.Url.{Parser, Url}
use outlook_agent.Graph.Links.{IsHome, LinkError, valid_graph_next_link, valid_next_link-IsHome}
use outlook_agent.Graph.Pages.{
  Page, PagesError, Reading, get_page, max_pages, page_read, read_all, read_pages, too_many, turned,
}

-- the items of a page in front of those of the later ones, if all of them were read
abbrev pub in_front {ℓ} : {A : Type ℓ} → List A → Option (List A) → Option (List A)
in_front xs none = none
in_front xs (some ys) = some (xs ++ ys)

abbrev pub got {ℓ κ} : {E : Type ℓ} → {A : Type κ} → Result E A → Option A
got (ok a) = some a
got (err e) = none

in_front-append {ℓ} :
    {A : Type ℓ} (xs ys : List A) (o : Option (List A))
    → in_front (xs ++ ys) o ≡ in_front xs (in_front ys o)
in_front-append xs ys none = refl
in_front-append xs ys (some zs) = ap some (append_assoc xs ys zs)

module _ (parse : Parser) (base : Url) {A : Type 0} (World : Type 0)
    (get : String → World → Result String (Page A) × World) (allowed : String → Bool) where
  -- At most so many pages, read one after the other from a URL and a world on: the URLs that are
  -- read, the world after them, and the items, if the last page names no next one.
  pub data Walk : ℕ → String → World → List String → World → Option (List A) → Type 0 where
    unread :
        (n : ℕ) (url message : String) (w : World)
        → (get url w).0 ≡ err message
        → Walk (suc n) url w (url ∷ []) (get url w).1 none
    ended :
        (n : ℕ) (url : String) (w : World) (page : Page A)
        → (get url w).0 ≡ ok page
        → is_blank page.next_link ≡ true
        → Walk (suc n) url w (url ∷ []) (get url w).1 (some page.items)
    barred :
        (n : ℕ) (url : String) (w : World) (page : Page A) (e : LinkError)
        → (get url w).0 ≡ ok page
        → is_blank page.next_link ≡ false
        → valid_graph_next_link parse base allowed page.next_link ≡ err e
        → Walk (suc n) url w (url ∷ []) (get url w).1 none
    cut :
        (url next : String) (w : World) (page : Page A)
        → (get url w).0 ≡ ok page
        → is_blank page.next_link ≡ false
        → IsHome parse base allowed page.next_link next
        → Walk 1 url w (url ∷ []) (get url w).1 none
    turn :
        {n : ℕ} {rest : List String} {v : World} {o : Option (List A)} (url next : String)
        (w : World) (page : Page A)
        → (get url w).0 ≡ ok page
        → is_blank page.next_link ≡ false
        → IsHome parse base allowed page.next_link next
        → Walk n next (get url w).1 rest v o
        → Walk (suc n) url w (url ∷ rest) v (in_front page.items o)

  abbrev Outcome : Type 0
  Outcome = Result PagesError (List A) × Reading World

  -- a walk of at most so many pages was read, and its items are returned behind the ones before
  abbrev pub Reads : ℕ → String → List A → Reading World → Outcome → Type 0
  Reads n first items s p =
      (asked : List String) × (o : Option (List A)) × (p.1.asked ≡ s.asked ++ asked)
      × (length asked ≤ n)
      × Walk n first s.world asked p.1.world o
      × (got p.0 ≡ in_front items o)

  -- what is left of the loop when it goes on to a URL
  abbrev GoesOn : ℕ → String → List A → Reading World → Outcome → Type 0
  GoesOn zero url items s p = p ≡ (err too_many, s)
  GoesOn (suc n) url items s p = Reads (suc n) url items s p

  followed :
      (n : ℕ) (url next : String) (items : List A) (s : Reading World) (page : Page A) (p : Outcome)
      → (get url s.world).0 ≡ ok page
      → is_blank page.next_link ≡ false
      → IsHome parse base allowed page.next_link next
      → GoesOn n next (items ++ page.items) (get_page parse base World get allowed url s).1 p
      → Reads (suc n) url items s p
  followed zero url next items s page p read link home same =
      rw same (url ∷ [], none, refl, omega arith, cut url next s.world page read link home, refl)
  followed (suc n) url next items s page p read link home (asked, o, e, le, walk, g) = (
    url ∷ asked,
    in_front page.items o,
    e ∙ append_assoc s.asked (url ∷ []) asked,
    omega (arith, le),
    turn url next s.world page read link home walk,
    g ∙ in_front-append items page.items o,
  )

  abbrev Goes : ℕ → (String → List A → Reading World → Outcome) → Type 0
  Goes n next =
      (url : String) (items : List A) (s : Reading World) → GoesOn n url items s (next url items s)

  page_turned :
      (n : ℕ) (url : String) (items : List A) (s : Reading World) (page : Page A)
      (next : String → List A → Reading World → Outcome)
      → Goes n next
      → (get url s.world).0 ≡ ok page
      → let t = (get_page parse base World get allowed url s).1 in
        let more = items ++ page.items in
        Reads
          (suc n)
          url
          items
          s
          (turned parse base World get allowed more t page.next_link (λ u. next u more t))
  page_turned n url items s page next goes read =
      let t = (get_page parse base World get allowed url s).1 in
      let more = items ++ page.items in
      elim (Bool-cases (is_blank page.next_link)) [
        | inl b ↦
            rw b
              (url ∷ [], some page.items, refl, omega arith, ended n url s.world page read b, refl)
        | inr b ↦ elim (Result-cases (valid_graph_next_link parse base allowed page.next_link)) [
          | inl (u, v) ↦
              rw (b, v)
                (followed n url u items s page (next u more t) read b
                  (valid_next_link-IsHome parse base allowed page.next_link u v) (goes u more t))
          | inr (x, v) ↦
              rw (b, v)
                (url ∷ [], none, refl, omega arith, barred n url s.world page x read b v, refl)
        ]
      ]

  page_read-Reads :
      (n : ℕ) (url : String) (items : List A) (s : Reading World)
      (next : String → List A → Reading World → Outcome)
      → Goes n next
      → Reads (suc n) url items s (
          page_read parse base World get allowed next items
            (get_page parse base World get allowed url s))
  page_read-Reads n url items s next goes = elim (Result-cases (get url s.world).0) [
    | inl (page, e) ↦ rw e (page_turned n url items s page next goes e)
    | inr (message, e) ↦
        rw e (url ∷ [], none, refl, omega arith, unread n url message s.world e, refl)
  ]

  read_pages-Reads :
      (n : ℕ) (url : String) (items : List A) (s : Reading World)
      → Reads (suc n) url items s (read_pages parse base World get allowed (suc n) url items s)
  unfolding read_pages
  read_pages-Reads zero url items s =
      page_read-Reads zero url items s (read_pages parse base World get allowed zero)
        (λ u more t. refl)
  read_pages-Reads (suc n) url items s =
      page_read-Reads (suc n) url items s (read_pages parse base World get allowed (suc n))
        (λ u more t. read_pages-Reads n u more t)

  -- A paginated read ends after at most ten pages, whatever links the pages name. It reads the first
  -- URL, and then each time the one that the next link of the page just read names, where that has
  -- no userinfo, the scheme and the host of the configured base, and a path of such pages. It
  -- returns the items of all pages, in order, if the last of them names no next one, and otherwise
  -- an error: a page that is not read, a link that is refused, or a link on the tenth page.
  pub read_all-Reads :
      (url : String) (s : Reading World)
      → Reads max_pages url [] s (read_all parse base World get allowed url s)
  unfolding read_all
  read_all-Reads url s = read_pages-Reads 9 url [] s
