-- ===== src/Server/Trail.antt =====
-- Every handler of Server/Calls keeps the audit complete.
use outlook_agent.Prelude.{Bool, List, Option, String, false, none, not, some, true, ◌==◌, ◌||◌}
use outlook_agent.Prelude.Text.{is_blank}
use outlook_agent.Policy.{evaluate}
use outlook_agent.Value.{Fields}
use outlook_agent.Server.{DryRunSummary, Runtime, State}
use outlook_agent.Server.Audits.{
  IsAudited, Audited, Audited-if, direct-Audited, dry_run-Audited, finish_confirmed-Audited,
  finish_tokens-Audited, reject-Audited,
}
use outlook_agent.Server.Calendar.{
  CreateMeetingInput, RespondInput, cancel_meeting, cancel_meeting_payload, create_meeting,
  create_meeting_payload, delete_event, delete_event_payload, execute_accepted, execute_canonical,
  is_empty, normalize_respond_input, respond, respond_named, respond_payload, respond_reviewed,
}
use outlook_agent.Server.Calls.{
  Call, handle, archived, cancelled, categorized, confirmed, created, deleted, event_deleted,
  flagged, marked, moved, raw, responded, rule_set, sent,
}
use outlook_agent.Server.Canonical.{
  action_preflight_rejection, canonical_action_payload, non_empty_strings,
}
use outlook_agent.Server.Gate.{Credentials, Reviewed}
use outlook_agent.Server.Handlers.{
  ActionConfirmInput, RawActionInput, action_confirm, calendar_reviewed, confirm_reviewed,
  direct_decision, early_reason, execute_confirmed_calendar_action,
  execute_reversible_message_mutation, is_bulk, move_to_deleted_items, mutate_reviewed,
  profile_or_default, raw_action, rule_set_enabled, send_draft, tokens_only, unreviewed,
}
use outlook_agent.Server.Mutations.{archive, categorize, flag, mark_read, move_to_folder}
use outlook_agent.Server.Safety.{direct_request}

module _ (r : Runtime) (c : Credentials) where
  confirm_reviewed-Audited :
      (k : Credentials) (summary : DryRunSummary) (v : Reviewed) (s : State r)
      → Audited r s (confirm_reviewed r k (summary, v, s)).1
  confirm_reviewed-Audited k summary v s =
      Audited-if r s (not (summary.error == "")) _ _
        (reject-Audited r v (r.redact_text summary.error) s) (finish_confirmed-Audited r true v k s)

  calendar_reviewed-Audited :
      (summary : DryRunSummary) (v : Reviewed) (s : State r)
      → Audited r s (calendar_reviewed r c (summary, v, s)).1
  calendar_reviewed-Audited summary v s =
      Audited-if r s (not (summary.error == "")) _ _
        (reject-Audited r v (r.redact_text summary.error) s)
        (finish_confirmed-Audited r false v c s)

  mutate_reviewed-Audited :
      (summary : DryRunSummary) (v : Reviewed) (s : State r)
      → Audited r s (mutate_reviewed r c (summary, v, s)).1
  mutate_reviewed-Audited summary v s =
      Audited-if r s (is_bulk r v.class) _ _
        (Audited-if r s (c.confirm_token == "") _ _ (λ h. h)
          (finish_confirmed-Audited r true v c s))
        (Audited-if r s (not (direct_decision r v).allowed) _ _
          (reject-Audited r v (direct_decision r v).reason s) (direct-Audited r true v s))

  action_confirm-Audited :
      (i : ActionConfirmInput) (s : State r) → Audited r s (action_confirm r i s).1
  unfolding action_confirm
  action_confirm-Audited i s =
      let (payload, reason) = canonical_action_payload i.action i.payload in
      Audited-if r s (not (early_reason r i.action reason == "")) _ _
        (reject-Audited r
          (unreviewed r i.action payload i.unsafe_mode (profile_or_default r i.profile)) _ s)
        (dry_run-Audited r (confirm_reviewed r i.credentials)
          (confirm_reviewed-Audited i.credentials) i.action payload i.unsafe_mode
          (profile_or_default r i.profile) s)

  raw_action-Audited : (i : RawActionInput) (s : State r) → Audited r s (raw_action r i s).1
  unfolding raw_action
  raw_action-Audited i s =
      let v = unreviewed r i.action i.payload i.unsafe_mode (profile_or_default r i.profile) in
      Audited-if r s (not (action_preflight_rejection i.action == "")) _ _ (reject-Audited r v _ s)
        (Audited-if r s
          (not (evaluate (direct_request r i.explicit_intent i.unsafe_mode v)).allowed) _ _
          (reject-Audited r v _ s) (direct-Audited r false v s))

  calendar-Audited :
      (action : String) (payload : Fields) (s : State r)
      → Audited r s (execute_confirmed_calendar_action r action payload c s).1
  unfolding execute_confirmed_calendar_action
  calendar-Audited action payload s =
      dry_run-Audited r (calendar_reviewed r c) calendar_reviewed-Audited action payload false
        r.profile s

  send_draft-Audited :
      (draft_id mailbox : String) (s : State r) → Audited r s (send_draft r draft_id mailbox c s).1
  unfolding send_draft
  send_draft-Audited draft_id mailbox s =
      Audited-if r s (is_blank draft_id) _ _ (λ h. h)
        (Audited-if r s (c.confirm_token == "") _ _ (λ h. h)
          (dry_run-Audited r (calendar_reviewed r c) calendar_reviewed-Audited _ _ false r.profile
            s))

  move_to_deleted_items-Audited :
      (ids : List String) (mailbox : String) (s : State r)
      → Audited r s (move_to_deleted_items r ids mailbox c s).1
  unfolding move_to_deleted_items
  move_to_deleted_items-Audited ids mailbox s =
      Audited-if r s (c.confirm_token == "") _ _ (λ h. h)
        (dry_run-Audited r (tokens_only r true c)
          (λ summary v t. finish_tokens-Audited r true v c t) _ _ false r.profile s)

  rule_set_enabled-Audited :
      (rule_id : String) (enabled : Option Bool) (folder_id mailbox : String) (s : State r)
      → Audited r s (rule_set_enabled r rule_id enabled folder_id mailbox c s).1
  unfolding rule_set_enabled
  rule_set_enabled-Audited rule_id none folder_id mailbox s h = h
  rule_set_enabled-Audited rule_id (some enabled) folder_id mailbox s h =
      Audited-if r s (c.confirm_token == "") _ _ (λ k. k)
        (dry_run-Audited r (tokens_only r false c)
          (λ summary v t. finish_tokens-Audited r false v c t) _ _ false r.profile s)
        h

  mutation-Audited :
      (action : String) (payload : Fields) (s : State r)
      → Audited r s (execute_reversible_message_mutation r action payload c s).1
  unfolding execute_reversible_message_mutation
  mutation-Audited action payload s =
      Audited-if r s _ _ _ (λ h. h)
        (dry_run-Audited r (mutate_reviewed r c) mutate_reviewed-Audited action payload false
          r.profile s)

  execute_accepted-Audited :
      (action : String) (p : Fields × String) (s : State r)
      → Audited r s (execute_accepted r c action p s).1
  execute_accepted-Audited action (payload, reason) s =
      Audited-if r s (not (reason == "")) _ _ (λ h. h) (calendar-Audited action payload s)

  execute_canonical-Audited :
      (action : String) (payload : Fields) (s : State r)
      → Audited r s (execute_canonical r c action payload s).1
  execute_canonical-Audited action payload s =
      execute_accepted-Audited action (canonical_action_payload action payload) s

  create_meeting-Audited :
      (i : CreateMeetingInput) (s : State r) → Audited r s (create_meeting r c i s).1
  unfolding create_meeting
  create_meeting-Audited i s =
      Audited-if r s (is_blank i.subject) _ _ (λ h. h)
        (Audited-if r s (is_blank i.start || is_blank i.finish) _ _ (λ h. h)
          (Audited-if r s (is_empty (non_empty_strings i.attendees)) _ _ (λ h. h)
            (Audited-if r s (c.confirm_token == "") _ _ (λ h. h)
              (execute_canonical-Audited "calendar.create_meeting" (create_meeting_payload i) s))))

  delete_event-Audited :
      (event_id change_key mailbox : String) (s : State r)
      → Audited r s (delete_event r c event_id change_key mailbox s).1
  unfolding delete_event
  delete_event-Audited event_id change_key mailbox s =
      Audited-if r s (is_blank event_id) _ _ (λ h. h)
        (Audited-if r s (c.confirm_token == "") _ _ (λ h. h)
          (execute_canonical-Audited "calendar.delete_event"
            (delete_event_payload event_id change_key mailbox) s))

  cancel_meeting-Audited :
      (event_id change_key comment mailbox : String) (s : State r)
      → Audited r s (cancel_meeting r c event_id change_key comment mailbox s).1
  unfolding cancel_meeting
  cancel_meeting-Audited event_id change_key comment mailbox s =
      Audited-if r s (is_blank event_id) _ _ (λ h. h)
        (Audited-if r s (c.confirm_token == "") _ _ (λ h. h)
          (execute_canonical-Audited "calendar.cancel_meeting"
            (cancel_meeting_payload event_id change_key comment mailbox) s))

  respond_named-Audited :
      (i : RespondInput) (name : Option String) (send : Option Bool) (s : State r)
      → Audited r s (respond_named r c i name send s).1
  respond_named-Audited i none send s h = h
  respond_named-Audited i (some name) none s h = h
  respond_named-Audited i (some name) (some send) s h =
      Audited-if r s (c.confirm_token == "") _ _ (λ k. k)
        (dry_run-Audited r (respond_reviewed r c)
          (λ summary v t. finish_confirmed-Audited r false v c t) "calendar.respond"
          (respond_payload i name send) false r.profile s)
        h

  respond-Audited : (i : RespondInput) (s : State r) → Audited r s (respond r c i s).1
  unfolding respond
  respond-Audited i s =
      Audited-if r s (is_blank i.event_id) _ _ (λ h. h)
        (respond_named-Audited i (normalize_respond_input i.response) i.send_response s)

  -- Whichever of the executing tools is called, with whatever input: where the audit's execute
  -- events name the executed requests, in order, before the call, they do so after it.
  pub handle-IsAudited : (k : Call) (s : State r) → IsAudited r s → IsAudited r (handle r c k s).1
  unfolding handle move_to_folder archive flag categorize mark_read
  handle-IsAudited (confirmed i) s h = action_confirm-Audited i s h
  handle-IsAudited (raw i) s h = raw_action-Audited i s h
  handle-IsAudited (sent id m) s h = send_draft-Audited id m s h
  handle-IsAudited (deleted ids m) s h = move_to_deleted_items-Audited ids m s h
  handle-IsAudited (rule_set id b f m) s h = rule_set_enabled-Audited id b f m s h
  handle-IsAudited (moved ids f m) s h =
      Audited-if r s (is_blank f) _ _ (λ k. k) (mutation-Audited _ _ s) h
  handle-IsAudited (archived ids m) s h = mutation-Audited _ _ s h
  handle-IsAudited (flagged ids f m) s h =
      Audited-if r s (is_blank f) _ _ (λ k. k) (mutation-Audited _ _ s) h
  handle-IsAudited (categorized ids none m) s h = h
  handle-IsAudited (categorized ids (some cs) m) s h = mutation-Audited _ _ s h
  handle-IsAudited (marked ids none m) s h = h
  handle-IsAudited (marked ids (some b) m) s h = mutation-Audited _ _ s h
  handle-IsAudited (created i) s h = create_meeting-Audited i s h
  handle-IsAudited (event_deleted id key m) s h = delete_event-Audited id key m s h
  handle-IsAudited (cancelled id key comment m) s h = cancel_meeting-Audited id key comment m s h
  handle-IsAudited (responded i) s h = respond-Audited i s h
