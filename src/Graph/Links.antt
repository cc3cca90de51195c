-- ===== src/Graph/Links.antt =====
-- The checks of internal/transport/graph/transport.go on the next links that a page names:
-- validMessagesNextLink, validAttachmentsNextLink and validCalendarViewNextLink. The base URL is the
-- parsed one of the configuration.
use outlook_agent.Prelude.{
  Bool, Option, Result, String, arith, eq_iff, err, false, if◌then◌else◌, none, not, ok, refl, some,
  true, ◌&&◌, ◌==◌, ◌||◌, ◌≡◌,
}
use outlook_agent.Prelude.Text.{
  contains, has_prefix, is_blank, trim_prefix, trim_space, trim_slashes,
}
use outlook_agent.Url.{Parser, Url}

pub data LinkError : Type 0 where
  missing invalid userinfo wrong_host outside_base not_allowed : LinkError

unfoldable pub is_allowed_messages_next_path : String → Bool
is_allowed_messages_next_path path =
    has_prefix "/me/messages" path
    || (has_prefix "/me/mailFolders/" path && contains "/messages" path)
    || (has_prefix "/users/" path && contains "/messages" path)

unfoldable pub is_allowed_attachments_next_path : String → Bool
is_allowed_attachments_next_path path =
    (has_prefix "/me/messages/" path && contains "/attachments" path)
    || (has_prefix "/users/" path && contains "/messages/" path && contains "/attachments" path)

unfoldable pub is_allowed_calendar_view_next_path : String → Bool
is_allowed_calendar_view_next_path path =
    has_prefix "/me/calendarView" path
    || (has_prefix "/users/" path && contains "/calendarView" path)

-- the path of the link, less the path of the base
unfoldable pub relative_path : Url → Url → String
relative_path base u = trim_prefix (trim_slashes base.escaped_path) u.escaped_path

module _ (parse : Parser) (base : Url) where
  abbrev checked : (String → Bool) → Option Url → Result LinkError String
  checked allowed none = err invalid
  checked allowed (some u) =
      if u.scheme == ""
      then err invalid
      else if u.has_user
      then err userinfo
      else if not (u.scheme == base.scheme) || not (u.host == base.host)
      then err wrong_host
      else if not (has_prefix "/" (relative_path base u))
      then err outside_base
      else if not (allowed (relative_path base u))
      then err not_allowed
      else ok u.spelling

  -- validGraphNextLink, and validMessagesNextLink, which differs in its messages
  unfoldable pub valid_graph_next_link : (String → Bool) → String → Result LinkError String
  unfolding relative_path
  valid_graph_next_link allowed link =
      if is_blank link then err missing else checked allowed (parse (trim_space link))

  unfoldable pub valid_messages_next_link : String → Result LinkError String
  unfolding valid_graph_next_link is_allowed_messages_next_path
  valid_messages_next_link link = valid_graph_next_link is_allowed_messages_next_path link

  unfoldable pub valid_attachments_next_link : String → Result LinkError String
  unfolding valid_graph_next_link is_allowed_attachments_next_path
  valid_attachments_next_link link = valid_graph_next_link is_allowed_attachments_next_path link

  unfoldable pub valid_calendar_view_next_link : String → Result LinkError String
  unfolding valid_graph_next_link is_allowed_calendar_view_next_path
  valid_calendar_view_next_link link = valid_graph_next_link is_allowed_calendar_view_next_path link

  -- the link of a URL without userinfo, on the scheme and the host of the base, with an allowed path
  abbrev pub IsHome : (String → Bool) → String → String → Type 0
  IsHome allowed link out =
      (u : Url) × (parse (trim_space link) ≡ some u)
      × (out ≡ u.spelling)
      × (u.has_user ≡ false)
      × (u.scheme ≡ base.scheme)
      × (u.host ≡ base.host)
      × (allowed (relative_path base u) ≡ true)

  checked-IsHome :
      (allowed : String → Bool) (link out : String) (o : Option Url)
      → parse (trim_space link) ≡ o
      → checked allowed o ≡ ok out
      → IsHome allowed link out
  checked-IsHome allowed link out none p e = ground arith
  checked-IsHome allowed link out (some u) p e = (
    u,
    p,
    ground arith,
    ground arith,
    ground (arith, eq_iff u.scheme base.scheme),
    ground (arith, eq_iff u.host base.host),
    ground arith,
  )

  -- A next link that the Graph transport follows parses as a URL with no userinfo, with the scheme and
  -- the host of the configured base, and with a path of the pages it is asked for, and it is followed
  -- as that URL is spelled.
  pub valid_next_link-IsHome :
      (allowed : String → Bool) (link out : String)
      → valid_graph_next_link allowed link ≡ ok out
      → IsHome allowed link out
  unfolding valid_graph_next_link
  valid_next_link-IsHome allowed link out e =
      checked-IsHome allowed link out (parse (trim_space link)) refl (ground arith)
