-- ===== src/Graph/Pages.antt =====
-- The paginated reads of internal/transport/graph/transport.go: the loops of listCalendarEvents and
-- listAttachmentMetadataForReview. One page is a parameter, read from its URL; the URLs that are read
-- are listed in order.
pub mod Walks
use outlook_agent.Prelude.{
  Bool, List, Result, String, [], err, if◌then◌else◌, ok, suc, zero, ℕ, ◌++◌, ◌||◌, ◌∷◌,
}
use outlook_agent.Prelude.Text.{is_blank}
use outlook_agent.Url.{Parser, Url}
use outlook_agent.Graph.Links.{
  LinkError, is_allowed_attachments_next_path, is_allowed_calendar_view_next_path,
  valid_graph_next_link,
}

-- maxReviewAttachmentPages and maxCalendarViewPages
abbrev pub max_pages : ℕ
max_pages = 10

pub data PagesError : Type 0 where
  -- the error of a read
  unread : String → PagesError
  bad_link : LinkError → PagesError
  too_many : PagesError
  -- the first URL cannot be built, or the window is missing
  bad_url : String → PagesError
  no_window : PagesError

pub record Page (A : Type 0) : Type 0 where
  pub items : List A
  pub next_link : String

-- the world of the host, and the URLs read
pub record Reading (World : Type 0) : Type 0 where
  pub world : World
  pub asked : List String

module _ (parse : Parser) (base : Url) {A : Type 0} (World : Type 0)
    (get : String → World → Result String (Page A) × World) (allowed : String → Bool) where
  abbrev pub get_page : String → Reading World → Result String (Page A) × Reading World
  get_page url s =
      let (result, world) = get url s.world in
      (result, record { world = world; asked = s.asked ++ url ∷ [] })

  -- what follows a page: the end, the next page, or an error
  abbrev pub turned :
      List A
      → Reading World
      → String
      → (String → Result PagesError (List A) × Reading World)
      → Result PagesError (List A) × Reading World
  turned items s link next =
      if is_blank link
      then (ok items, s)
      else elim (valid_graph_next_link parse base allowed link) [
        | ok url ↦ next url
        | err e ↦ (err (bad_link e), s)
      ]

  abbrev pub page_read :
      (String → List A → Reading World → Result PagesError (List A) × Reading World)
      → List A
      → Result String (Page A) × Reading World
      → Result PagesError (List A) × Reading World
  page_read next items (err message, s) = (err (unread message), s)
  page_read next items (ok page, s) =
      turned (items ++ page.items) s page.next_link (λ url. next url (items ++ page.items) s)

  -- the loop, with so many pages left
  unfoldable pub read_pages :
      ℕ → String → List A → Reading World → Result PagesError (List A) × Reading World
  read_pages zero url items s = (err too_many, s)
  read_pages (suc n) url items s =
      page_read (λ url' items' s'. read_pages n url' items' s') items (get_page url s)

  -- every page, from the first URL on
  unfoldable pub read_all : String → Reading World → Result PagesError (List A) × Reading World
  unfolding read_pages
  read_all url s = read_pages max_pages url [] s

module _ (parse : Parser) (base : Url) {A : Type 0} (World : Type 0)
    (get : String → World → Result String (Page A) × World) where
  abbrev read_from :
      (String → Bool)
      → Result String String
      → Reading World
      → Result PagesError (List A) × Reading World
  read_from allowed (err message) s = (err (bad_url message), s)
  read_from allowed (ok url) s = read_all parse base World get allowed url s

  -- listCalendarEvents, with the URL that calendarViewURL makes of the window
  unfoldable pub list_calendar_events :
      (String → String → Result String String)
      → String
      → String
      → Reading World
      → Result PagesError (List A) × Reading World
  unfolding read_all is_allowed_calendar_view_next_path
  list_calendar_events view_url start finish s =
      if is_blank start || is_blank finish
      then (err no_window, s)
      else read_from is_allowed_calendar_view_next_path (view_url start finish) s

  -- listAttachmentMetadataForReview, with the URL that messageAttachmentsURL makes of the message
  unfoldable pub list_attachment_metadata_for_review :
      Result String String → Reading World → Result PagesError (List A) × Reading World
  unfolding read_all is_allowed_attachments_next_path
  list_attachment_metadata_for_review url s = read_from is_allowed_attachments_next_path url s
