-- ===== src/Server/Reads.antt =====
-- The handlers that hand one request to the transport with no review: those that read one thing,
-- list things, or save a draft. Each output is the part of the response that the code picks.
use outlook_agent.Prelude.{
  Bool, List, Option, Result, String, [], err, false, if◌then◌else◌, none, not, ok, some, true,
  ◌++◌, ◌==◌, ◌∷◌,
}
use outlook_agent.Prelude.Text.{is_blank, trim_space}
use outlook_agent.Value.{
  Fields, Items, Value, array, as_text, cons, end, field, get_field, nil, number, set_field,
  strings, text,
}
use outlook_agent.Redact
use outlook_agent.Server.{ActionRequest, ActionResponse, AuthResult, Runtime, State}
use outlook_agent.Server.Handlers.{profile_or_default, with_mailbox}

-- items, _ := v.([]any)
abbrev pub as_items : Value → Items
as_items (array items) = items
as_items v = nil

abbrev pub has_items : Items → Bool
has_items nil = false
has_items (cons v rest) = true

-- a nil map reads as an empty one
abbrev pub data_of : Option Fields → Fields
data_of none = end
data_of (some fs) = fs

-- if strings.TrimSpace(value) != "" { payload[key] = value }
abbrev pub set_filled : String → String → Fields → Fields
set_filled key value fs = if is_blank value then fs else set_field key (text value) fs

-- CalendarWindowInput
pub record CalendarWindowInput : Type 0 where
  pub start : String
  pub finish : String
  pub email : String
  pub time_zone : String
  pub time_zone_alias : String
  pub mailbox : String

-- CalendarFindTimeInput; the minutes are their JSON text
pub record CalendarFindTimeInput : Type 0 where
  pub start : String
  pub finish : String
  pub attendees : List String
  pub duration_minutes : Option String
  pub time_zone : String
  pub tentative : String
  pub mailbox : String

-- PeopleResolveOutput
pub record PeopleResolveOutput : Type 0 where
  pub person : Value
  pub candidates : Items
  pub error : String

unfoldable pub effective_time_zone : CalendarWindowInput → String
effective_time_zone i = if is_blank i.time_zone then i.time_zone_alias else i.time_zone

-- the payload of calendarListHandler
unfoldable pub calendar_list_payload : CalendarWindowInput → Fields
unfolding effective_time_zone
calendar_list_payload i =
    set_filled "time_zone" (effective_time_zone i)
      (with_mailbox (field "start" (text i.start) (field "end" (text i.finish) end)) i.mailbox)

-- the payload of calendarAvailabilityHandler
unfoldable pub calendar_availability_payload : CalendarWindowInput → Fields
unfolding effective_time_zone
calendar_availability_payload i = set_filled "time_zone" (effective_time_zone i) (
    set_filled "email" i.email
      (with_mailbox (field "start" (text i.start) (field "end" (text i.finish) end)) i.mailbox))

abbrev set_duration : Option String → Fields → Fields
set_duration none fs = fs
set_duration (some n) fs = set_field "duration_minutes" (number n) fs

-- the payload of calendarFindTimeHandler
unfoldable pub calendar_find_time_payload : CalendarFindTimeInput → Fields
calendar_find_time_payload i =
    with_mailbox
      (set_filled "tentative" i.tentative (
        set_filled "time_zone" i.time_zone (
          set_duration i.duration_minutes (
            field "start" (text i.start)
              (field "end" (text i.finish) (field "attendees" (strings i.attendees) end))))))
      i.mailbox

module _ (r : Runtime) where
  -- client.Execute of a request with no review
  unfoldable pub run_direct : String → Fields → State r → ActionResponse × State r
  run_direct name payload s =
      let request : ActionRequest = record {
        name = name;
        payload = payload;
        unsafe_mode = false;
      } in
      let (response, world) = r.client.execute request s.world in
      (response, record s { world = world; direct = s.direct ++ request ∷ [] })

  abbrev non_empty_message : String → String
  non_empty_message message = if message == "" then "transport action failed" else message

  -- transportResponseError
  unfoldable pub transport_response_error : ActionResponse → Option String
  transport_response_error response =
      if response.ok
      then none
      else some (non_empty_message (trim_space (r.redact_text response.error)))

  -- redact.Value(response.Data).(map[string]any)
  abbrev pub redacted : ActionResponse → Fields
  redacted response = Redact.fields r.redact_text (data_of response.fields)

  abbrev pub read_out : {A : Type 0} → (ActionResponse → A) → ActionResponse → Result String A
  read_out pick response = elim (transport_response_error response) [
    | none ↦ ok (pick response)
    | some message ↦ err message
  ]

  -- Execute, the error of its response, and what the handler picks of it
  abbrev pub read :
      {A : Type 0} → String → Fields → (ActionResponse → A) → State r → Result String A × State r
  read name payload pick s =
      let (response, s') = run_direct name payload s in (read_out pick response, s')

  -- authCheckHandler
  unfoldable pub auth_check : String → State r → AuthResult × State r
  auth_check profile s =
      let (result, world) = r.client.authenticate (profile_or_default r profile) s.world in
      (result, record s { world = world })

  -- mailFetchMetadataHandler
  unfoldable pub fetch_metadata : String → String → State r → Result String Value × State r
  fetch_metadata id mailbox =
      read "mail.fetch_metadata" (with_mailbox (field "id" (text id) end) mailbox)
        (λ response. get_field "message" (redacted response))

  -- mailFetchBodyHandler: the id and the text, neither redacted
  unfoldable pub fetch_body : String → String → State r → Result String (Value × String) × State r
  fetch_body id mailbox =
      read "mail.fetch_body" (with_mailbox (field "id" (text id) end) mailbox) (λ response. (
        get_field "id" (data_of response.fields),
        as_text (get_field "body_text" (data_of response.fields)),
      ))

  -- mailListAttachmentsHandler
  unfoldable pub list_attachments : String → String → State r → Result String Items × State r
  list_attachments id mailbox =
      read "mail.list_attachments" (with_mailbox (field "id" (text id) end) mailbox)
        (λ response. as_items (get_field "attachments" (data_of response.fields)))

  -- mailFetchAttachmentHandler
  unfoldable pub fetch_attachment :
      String → String → String → State r → Result String Value × State r
  fetch_attachment message_id attachment_id mailbox =
      read "mail.fetch_attachment"
        (with_mailbox
          (field "message_id" (text message_id) (field "attachment_id" (text attachment_id) end))
          mailbox)
        (λ response. get_field "attachment" (data_of response.fields))

  abbrev pub picked_draft : ActionResponse → Value
  picked_draft response = get_field "draft" (redacted response)

  -- mailCreateDraftHandler
  unfoldable pub create_draft :
      String → String → List String → String → State r → Result String Value × State r
  create_draft subject body to mailbox =
      read "mail.create_draft"
        (with_mailbox
          (field "subject" (text subject) (field "body" (text body) (field "to" (strings to) end)))
          mailbox)
        picked_draft

  -- createRelatedDraft
  abbrev pub create_related_draft : String → Fields → State r → Result String Value × State r
  create_related_draft action payload = read action payload picked_draft

  -- mailCreateReplyDraftHandler
  unfoldable pub create_reply_draft :
      String → String → String → State r → Result String Value × State r
  create_reply_draft message_id body mailbox =
      create_related_draft "mail.create_reply_draft"
        (with_mailbox (field "message_id" (text message_id) (field "body" (text body) end)) mailbox)

  -- mailCreateReplyAllDraftHandler
  unfoldable pub create_reply_all_draft :
      String → String → String → State r → Result String Value × State r
  create_reply_all_draft message_id body mailbox =
      create_related_draft "mail.create_reply_all_draft"
        (with_mailbox (field "message_id" (text message_id) (field "body" (text body) end)) mailbox)

  -- mailCreateForwardDraftHandler
  unfoldable pub create_forward_draft :
      String → String → List String → String → State r → Result String Value × State r
  create_forward_draft message_id body to mailbox =
      create_related_draft "mail.create_forward_draft" (
        with_mailbox
          (field "message_id" (text message_id)
            (field "body" (text body) (field "to" (strings to) end)))
          mailbox)

  -- mailRulesListHandler
  unfoldable pub rules_list : String → String → State r → Result String Items × State r
  rules_list folder_id mailbox =
      read "mail.rules.list" (with_mailbox (field "folder_id" (text folder_id) end) mailbox)
        (λ response. as_items (get_field "rules" (redacted response)))

  -- mailboxSettingsGetHandler
  unfoldable pub settings_get : String → String → State r → Result String Value × State r
  settings_get setting mailbox =
      read "mailbox.settings.get" (with_mailbox (field "setting" (text setting) end) mailbox)
        (λ response. get_field "settings" (redacted response))

  -- peopleSearchHandler
  unfoldable pub people_search : String → String → State r → Result String Items × State r
  people_search query mailbox =
      read "people.search" (with_mailbox (field "query" (text query) end) mailbox)
        (λ response. as_items (get_field "people" (redacted response)))

  abbrev resolved : ActionResponse → Result String PeopleResolveOutput
  resolved response =
      read_out
        (λ x. record { person = get_field "person" (redacted x); candidates = nil; error = "" })
        response

  -- the candidates that a failed answer names, if it has data
  abbrev candidates_of : ActionResponse → Items
  candidates_of response = elim response.fields [
    | none ↦ nil
    | some fs ↦ as_items (get_field "candidates" (redacted response))
  ]

  abbrev resolve_answer : ActionResponse → Result String PeopleResolveOutput
  resolve_answer response =
      if not response.ok
      then (if has_items (candidates_of response)
          then ok (record {
            person = Value.null;
            candidates = candidates_of response;
            error = r.redact_text response.error;
          })
          else resolved response)
      else resolved response

  -- peopleResolveHandler: a failed answer with candidates is no error
  unfoldable pub people_resolve :
      String → String → State r → Result String PeopleResolveOutput × State r
  people_resolve query mailbox s =
      let (response, s') =
        run_direct "people.resolve" (with_mailbox (field "query" (text query) end) mailbox) s in
      (resolve_answer response, s')

  -- calendarListHandler
  unfoldable pub calendar_list : CalendarWindowInput → State r → Result String Items × State r
  calendar_list i =
      read "calendar.list" (calendar_list_payload i)
        (λ response. as_items (get_field "events" (redacted response)))

  -- calendarAvailabilityHandler
  unfoldable pub calendar_availability :
      CalendarWindowInput → State r → Result String Items × State r
  calendar_availability i =
      read "calendar.availability" (calendar_availability_payload i)
        (λ response. as_items (get_field "windows" (data_of response.fields)))

  -- calendarFindTimeHandler
  unfoldable pub calendar_find_time :
      CalendarFindTimeInput → State r → Result String Items × State r
  calendar_find_time i =
      read "calendar.find_time" (calendar_find_time_payload i)
        (λ response. as_items (get_field "suggestions" (redacted response)))
