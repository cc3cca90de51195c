-- ===== src/Graph/RawRequest.antt =====
-- The headers of a raw request in internal/transport/graph/transport.go: rawGraphHeaders, and their
-- setting in doRawJSONWithHeaders and doJSONWithHeaders. The fields of a map are read in the order of the
-- model, so that where several headers are refused, the one that is named may be another.
pub mod Bearer
use outlook_agent.Prelude.{
  Bool, List, Result, String, [], err, false, if◌then◌else◌, ok, true, ◌++ˢ◌, ◌∷◌,
}
use outlook_agent.Prelude.Text.{is_one_of, to_lower, trim_space}
use outlook_agent.Table
use outlook_agent.Table.{Table}
use outlook_agent.Value.{Fields, Value, end, field, object, text}

pub data HeaderError : Type 0 where
  not_allowed not_a_text : String → HeaderError

abbrev pub reserved_headers : List String
reserved_headers =
    "" ∷ "authorization" ∷ "cookie" ∷ "set-cookie" ∷ "content-type" ∷ "user-agent" ∷ "accept" ∷ []

unfoldable pub is_reserved : String → Bool
is_reserved key = is_one_of reserved_headers (to_lower (trim_space key))

abbrev pub with_header :
    String
    → String
    → Result HeaderError (List (String × String))
    → Result HeaderError (List (String × String))
with_header key value (err e) = err e
with_header key value (ok headers) = ok ((key, value) ∷ headers)

abbrev pub add_header :
    String
    → Value
    → Result HeaderError (List (String × String))
    → Result HeaderError (List (String × String))
add_header key (text value) rest = with_header key value rest
add_header key v rest = err (not_a_text key)

unfoldable pub header_fields : Fields → Result HeaderError (List (String × String))
unfolding is_reserved
header_fields end = ok []
header_fields (field key v fs) =
    let rest = header_fields fs in
    if is_reserved key then err (not_allowed key) else add_header key v rest

-- rawGraphHeaders
unfoldable pub raw_graph_headers : Value → Result HeaderError (List (String × String))
unfolding header_fields
raw_graph_headers (object fs) = header_fields fs
raw_graph_headers v = ok []

-- `canonical` is net/http's CanonicalHeaderKey.
module _ (canonical : String → String) where
  -- http.Header.Set
  abbrev pub set : String → String → Table String → Table String
  set key value headers = Table.insert (canonical key) value headers

  -- the headers that every request has
  unfoldable pub own_headers : String → Bool → Table String
  own_headers token has_body =
      let headers =
        set "User-Agent" "outlook-agent"
          (set "Accept" "application/json" (set "Authorization" ("Bearer " ++ˢ token) [])) in
      if has_body then set "Content-Type" "application/json" headers else headers

  unfoldable pub set_all : List (String × String) → Table String → Table String
  set_all [] headers = headers
  set_all ((key, value) ∷ rest) headers = set_all rest (set key value headers)

  -- the headers of a request, with those that the caller adds
  unfoldable pub request_headers : String → Bool → List (String × String) → Table String
  unfolding own_headers set_all
  request_headers token has_body headers = set_all headers (own_headers token has_body)
