-- ===== src/Server/Calendar.antt =====
-- The handlers of the calendar mutations.
use outlook_agent.Prelude.{
  Bool, List, Option, String, [], false, if◌then◌else◌, none, not, some, true, ◌==◌, ◌||◌, ◌∷◌,
}
use outlook_agent.Prelude.Text.{drop_letter, is_blank, to_lower, trim_space}
use outlook_agent.Value.{Fields, bool, end, field, number, set_field, strings, text}
use outlook_agent.Server.{DryRunSummary, Runtime, State}
use outlook_agent.Server.Gate.{Credentials, Reviewed, check_confirmed, dry_run_review_for}
use outlook_agent.Server.Execute.{ActionResult, failed, finish}
use outlook_agent.Server.Canonical.{canonical_action_payload, non_empty_strings}
use outlook_agent.Server.Handlers.{execute_confirmed_calendar_action, with_mailbox}

-- CalendarCreateMeetingInput, less its credentials; its End is `finish`, and the reminder's minutes are
-- their JSON text
pub record CreateMeetingInput : Type 0 where
  pub subject : String
  pub start : String
  pub finish : String
  pub attendees : List String
  pub timezone : String
  pub body : String
  pub location : String
  pub is_online_meeting : Option Bool
  pub reminder_minutes : Option String
  pub mailbox : String

-- CalendarRespondInput, less its credentials
pub record RespondInput : Type 0 where
  pub event_id : String
  pub response : String
  pub comment : String
  pub send_response : Option Bool
  pub mailbox : String

-- if strings.TrimSpace(value) != "" { payload[key] = value }
abbrev set_filled : String → String → Fields → Fields
set_filled key value fs = if is_blank value then fs else set_field key (text value) fs

abbrev set_flag : Option Bool → Fields → Fields
set_flag none fs = fs
set_flag (some b) fs = set_field "is_online_meeting" (bool b) fs

abbrev set_reminder : Option String → Fields → Fields
set_reminder none fs = fs
set_reminder (some n) fs = set_field "reminder_minutes" (number n) fs

unfoldable pub create_meeting_payload : CreateMeetingInput → Fields
create_meeting_payload i =
    let required = field "subject" (text i.subject) (
      field "start" (text i.start) (
        field "end" (text i.finish)
          (field "attendees" (strings (non_empty_strings i.attendees)) end))) in
    with_mailbox
      (set_reminder i.reminder_minutes (
        set_flag i.is_online_meeting (
          set_filled "location" i.location
            (set_filled "body" i.body (set_filled "time_zone" i.timezone required)))))
      i.mailbox

-- normalizeCalendarRespondInput
unfoldable pub normalize_respond_input : String → Option String
normalize_respond_input value =
    let normalized = to_lower (trim_space (drop_letter 45 (drop_letter 95 value))) in
    if normalized == "accept" || normalized == "accepted"
    then some "accept"
    else if normalized == "decline" || normalized == "declined"
    then some "decline"
    else if normalized == "tentative"
        || normalized == "tentativelyaccept"
        || normalized == "tentativelyaccepted"
    then some "tentative"
    else none

unfoldable pub respond_payload : RespondInput → String → Bool → Fields
respond_payload i name send =
    with_mailbox
      (field "event_id" (text (trim_space i.event_id)) (
        field "response" (text name)
          (field "comment" (text i.comment) (field "send_response" (bool send) end))))
      i.mailbox

unfoldable pub delete_event_payload : String → String → String → Fields
delete_event_payload event_id change_key mailbox =
    with_mailbox
      (field "event_id" (text (trim_space event_id)) (field "change_key" (text change_key) end))
      mailbox

unfoldable pub cancel_meeting_payload : String → String → String → String → Fields
cancel_meeting_payload event_id change_key comment mailbox =
    with_mailbox
      (field "event_id" (text (trim_space event_id))
        (field "change_key" (text change_key) (field "comment" (text comment) end)))
      mailbox

abbrev pub is_empty : List String → Bool
is_empty [] = true
is_empty (x ∷ xs) = false

module _ (r : Runtime) (c : Credentials) where
  abbrev pub execute_accepted : String → Fields × String → State r → ActionResult × State r
  execute_accepted action (payload, reason) s =
      if not (reason == "")
      then (failed reason, s)
      else execute_confirmed_calendar_action r action payload c s

  -- the end of the three handlers that canonicalise their payload
  abbrev pub execute_canonical : String → Fields → State r → ActionResult × State r
  execute_canonical action payload s =
      execute_accepted action (canonical_action_payload action payload) s

  -- calendarCreateMeetingHandler
  unfoldable pub create_meeting : CreateMeetingInput → State r → ActionResult × State r
  create_meeting i s =
      if is_blank i.subject
      then (failed "subject required", s)
      else if is_blank i.start || is_blank i.finish
      then (failed "start and end required", s)
      else if is_empty (non_empty_strings i.attendees)
      then (failed "attendees required", s)
      else if c.confirm_token == ""
      then (failed "confirm_token required", s)
      else execute_canonical "calendar.create_meeting" (create_meeting_payload i) s

  -- calendarDeleteEventHandler
  unfoldable pub delete_event : String → String → String → State r → ActionResult × State r
  delete_event event_id change_key mailbox s =
      if is_blank event_id
      then (failed "event_id required", s)
      else if c.confirm_token == ""
      then (failed "confirm_token required", s)
      else execute_canonical "calendar.delete_event"
          (delete_event_payload event_id change_key mailbox) s

  -- calendarCancelMeetingHandler
  unfoldable pub cancel_meeting :
      String → String → String → String → State r → ActionResult × State r
  cancel_meeting event_id change_key comment mailbox s =
      if is_blank event_id
      then (failed "event_id required", s)
      else if c.confirm_token == ""
      then (failed "confirm_token required", s)
      else execute_canonical "calendar.cancel_meeting"
          (cancel_meeting_payload event_id change_key comment mailbox) s

  -- no test of the dry run's error
  abbrev pub respond_reviewed : DryRunSummary × Reviewed × State r → ActionResult × State r
  respond_reviewed (summary, v, s) = finish r false v (check_confirmed r v c s)

  abbrev pub respond_named :
      RespondInput → Option String → Option Bool → State r → ActionResult × State r
  respond_named i none send s = (failed "response must be accept, decline, or tentative", s)
  respond_named i (some name) none s = (failed "send_response required", s)
  respond_named i (some name) (some send) s =
      if c.confirm_token == ""
      then (failed "confirm_token required", s)
      else respond_reviewed
          (dry_run_review_for r "calendar.respond" (respond_payload i name send) false r.profile s)

  -- calendarRespondHandler
  unfoldable pub respond : RespondInput → State r → ActionResult × State r
  respond i s =
      if is_blank i.event_id
      then (failed "event_id required", s)
      else respond_named i (normalize_respond_input i.response) i.send_response s
