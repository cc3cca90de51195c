-- ===== src/Server/Permits.antt =====
-- Each handler of Server/Handlers and Server/Mutations is safe, and so is every call of the server.
use outlook_agent.Prelude.Text.{is_blank}
use outlook_agent.Prelude.{
  Bool, List, Option, String, arith, false, inl, inr, none, not, refl, some, true, ◌==◌, ◌||◌, ◌∙◌,
  ◌≡◌,
}
use outlook_agent.Policy.{evaluate}
use outlook_agent.Policy.Laws.{evaluate-DirectlyAllowed}
use outlook_agent.Server.{Fields, DryRunSummary, Runtime, State}
use outlook_agent.Server.Canonical.{
  non_empty_strings, action_preflight_rejection, canonical_action_payload,
}
use outlook_agent.Server.Gate.{Credentials, Reviewed}
use outlook_agent.Server.Execute.{attached, execute_audited}
use outlook_agent.Server.Handlers.{
  ActionConfirmInput, RawActionInput, action_confirm, calendar_reviewed, confirm_reviewed,
  direct_decision, early_reason, execute_confirmed_calendar_action,
  execute_reversible_message_mutation, is_bulk, move_to_deleted_items, mutate_reviewed,
  profile_or_default, raw_action, rule_set_enabled, send_draft, tokens_only, unreviewed,
}
use outlook_agent.Server.Calendar.{
  CreateMeetingInput, RespondInput, create_meeting, delete_event, cancel_meeting, respond,
  respond_named, normalize_respond_input, respond_reviewed, respond_payload, execute_canonical,
  execute_accepted, create_meeting_payload, delete_event_payload, cancel_meeting_payload, is_empty,
}
use outlook_agent.Server.Safety.{
  IsClassified, IsPermitted, IsPermitted-if, direct_request, dry_run-IsPermitted, executed-attached,
  executed-execute_audited, finish_confirmed-IsPermitted, finish_tokens-IsPermitted,
  reject-IsPermitted,
}

module _ (r : Runtime) where
  confirm_reviewed-IsPermitted :
      (intent : Bool) (c : Credentials) (summary : DryRunSummary) (v : Reviewed) (s : State r)
      → IsClassified r v
      → IsPermitted r intent c s (confirm_reviewed r c (summary, v, s)).1
  confirm_reviewed-IsPermitted intent c summary v s h =
      IsPermitted-if r intent c s (not (summary.error == "")) _ _
        (reject-IsPermitted r intent v c (r.redact_text summary.error) s)
        (λ _. finish_confirmed-IsPermitted r intent true v c s h)

  calendar_reviewed-IsPermitted :
      (intent : Bool) (c : Credentials) (summary : DryRunSummary) (v : Reviewed) (s : State r)
      → IsClassified r v
      → IsPermitted r intent c s (calendar_reviewed r c (summary, v, s)).1
  calendar_reviewed-IsPermitted intent c summary v s h =
      IsPermitted-if r intent c s (not (summary.error == "")) _ _
        (reject-IsPermitted r intent v c (r.redact_text summary.error) s)
        (λ _. finish_confirmed-IsPermitted r intent false v c s h)

  tokens_only-IsPermitted :
      (intent with_manifest : Bool) (c : Credentials) (summary : DryRunSummary) (v : Reviewed)
      (s : State r)
      → IsClassified r v
      → IsPermitted r intent c s (tokens_only r with_manifest c (summary, v, s)).1
  tokens_only-IsPermitted intent m c summary v s h = finish_tokens-IsPermitted r intent m v c s h

  direct-IsPermitted :
      (intent with_manifest unsafe_mode : Bool) (c : Credentials) (v : Reviewed) (s : State r)
      → IsClassified r v
      → (evaluate (direct_request r intent unsafe_mode v)).allowed ≡ true
      → IsPermitted r intent c s (attached r with_manifest v (execute_audited r v s)).1
  direct-IsPermitted intent m unsafe_mode c v s h allowed = inr (
    v,
    executed-attached r m v (execute_audited r v s) ∙ executed-execute_audited r v s,
    h,
    inl (unsafe_mode, (evaluate-DirectlyAllowed (direct_request r intent unsafe_mode v)).0 allowed),
  )

  not-false : (b : Bool) → not b ≡ false → b ≡ true
  not-false b h = ground arith

  mutate_reviewed-IsPermitted :
      (c : Credentials) (summary : DryRunSummary) (v : Reviewed) (s : State r)
      → IsClassified r v
      → IsPermitted r true c s (mutate_reviewed r c (summary, v, s)).1
  mutate_reviewed-IsPermitted c summary v s h =
      IsPermitted-if r true c s (is_bulk r v.class) _ _
        (IsPermitted-if r true c s (c.confirm_token == "") _ _ (inl refl)
          (λ _. finish_confirmed-IsPermitted r true true v c s h))
        (λ _.
          IsPermitted-if r true c s (not (direct_decision r v).allowed) _ _
            (reject-IsPermitted r true v c (direct_decision r v).reason s)
            (λ e. direct-IsPermitted true true false c v s h (not-false _ e)))

  pub action_confirm-IsPermitted :
      (i : ActionConfirmInput) (s : State r)
      → IsPermitted r false i.credentials s (action_confirm r i s).1
  unfolding action_confirm
  action_confirm-IsPermitted i s =
      let (payload, reason) = canonical_action_payload i.action i.payload in
      IsPermitted-if r false i.credentials s (not (early_reason r i.action reason == "")) _ _
        (reject-IsPermitted r false
          (unreviewed r i.action payload i.unsafe_mode (profile_or_default r i.profile))
          i.credentials _ s)
        (λ _.
          dry_run-IsPermitted r false i.credentials (confirm_reviewed r i.credentials)
            (confirm_reviewed-IsPermitted false i.credentials) i.action payload i.unsafe_mode
            (profile_or_default r i.profile) s)

  pub raw_action-IsPermitted :
      (i : RawActionInput) (c : Credentials) (s : State r)
      → IsPermitted r i.explicit_intent c s (raw_action r i s).1
  unfolding raw_action
  raw_action-IsPermitted i c s =
      let v = unreviewed r i.action i.payload i.unsafe_mode (profile_or_default r i.profile) in
      IsPermitted-if r i.explicit_intent c s (not (action_preflight_rejection i.action == "")) _ _
        (reject-IsPermitted r i.explicit_intent v c _ s)
        (λ _.
          IsPermitted-if r i.explicit_intent c s _ _ _
            (reject-IsPermitted r i.explicit_intent v c _ s)
            (λ e.
              direct-IsPermitted i.explicit_intent false i.unsafe_mode c v s refl (not-false _ e)))

  pub calendar-IsPermitted :
      (intent : Bool) (action : String) (payload : Fields) (c : Credentials) (s : State r)
      → IsPermitted r intent c s (execute_confirmed_calendar_action r action payload c s).1
  unfolding execute_confirmed_calendar_action
  calendar-IsPermitted intent action payload c s =
      dry_run-IsPermitted r intent c (calendar_reviewed r c)
        (calendar_reviewed-IsPermitted intent c) action payload false r.profile s

  pub send_draft-IsPermitted :
      (draft_id mailbox : String) (c : Credentials) (s : State r)
      → IsPermitted r false c s (send_draft r draft_id mailbox c s).1
  unfolding send_draft
  send_draft-IsPermitted draft_id mailbox c s =
      IsPermitted-if r false c s (is_blank draft_id) _ _ (inl refl) (λ _.
        IsPermitted-if r false c s (c.confirm_token == "") _ _ (inl refl) (λ _.
          dry_run-IsPermitted r false c (calendar_reviewed r c)
            (calendar_reviewed-IsPermitted false c) _ _ false r.profile s))

  pub move_to_deleted_items-IsPermitted :
      (ids : List String) (mailbox : String) (c : Credentials) (s : State r)
      → IsPermitted r false c s (move_to_deleted_items r ids mailbox c s).1
  unfolding move_to_deleted_items
  move_to_deleted_items-IsPermitted ids mailbox c s =
      IsPermitted-if r false c s (c.confirm_token == "") _ _ (inl refl) (λ _.
        dry_run-IsPermitted r false c (tokens_only r true c) (tokens_only-IsPermitted false true c)
          _ _ false r.profile s)

  pub rule_set_enabled-IsPermitted :
      (rule_id : String) (enabled : Option Bool) (folder_id mailbox : String) (c : Credentials)
      (s : State r)
      → IsPermitted r false c s (rule_set_enabled r rule_id enabled folder_id mailbox c s).1
  unfolding rule_set_enabled
  rule_set_enabled-IsPermitted rule_id none folder_id mailbox c s = inl refl
  rule_set_enabled-IsPermitted rule_id (some enabled) folder_id mailbox c s =
      IsPermitted-if r false c s (c.confirm_token == "") _ _ (inl refl) (λ _.
        dry_run-IsPermitted r false c (tokens_only r false c)
          (tokens_only-IsPermitted false false c) _ _ false r.profile s)

  pub mutation-IsPermitted :
      (action : String) (payload : Fields) (c : Credentials) (s : State r)
      → IsPermitted r true c s (execute_reversible_message_mutation r action payload c s).1
  unfolding execute_reversible_message_mutation
  mutation-IsPermitted action payload c s = IsPermitted-if r true c s _ _ _ (inl refl) (λ _.
      dry_run-IsPermitted r true c (mutate_reviewed r c) (mutate_reviewed-IsPermitted c) action
        payload false r.profile s)

  execute_accepted-IsPermitted :
      (action : String) (p : Fields × String) (c : Credentials) (s : State r)
      → IsPermitted r false c s (execute_accepted r c action p s).1
  execute_accepted-IsPermitted action (payload, reason) c s =
      IsPermitted-if r false c s (not (reason == "")) _ _ (inl refl)
        (λ _. calendar-IsPermitted false action payload c s)

  execute_canonical-IsPermitted :
      (action : String) (payload : Fields) (c : Credentials) (s : State r)
      → IsPermitted r false c s (execute_canonical r c action payload s).1
  execute_canonical-IsPermitted action payload c s =
      execute_accepted-IsPermitted action (canonical_action_payload action payload) c s

  pub create_meeting-IsPermitted :
      (i : CreateMeetingInput) (c : Credentials) (s : State r)
      → IsPermitted r false c s (create_meeting r c i s).1
  unfolding create_meeting
  create_meeting-IsPermitted i c s =
      IsPermitted-if r false c s (is_blank i.subject) _ _ (inl refl) (λ _.
        IsPermitted-if r false c s (is_blank i.start || is_blank i.finish) _ _ (inl refl) (λ _.
          IsPermitted-if r false c s (is_empty (non_empty_strings i.attendees)) _ _ (inl refl) (λ _.
            IsPermitted-if r false c s (c.confirm_token == "") _ _ (inl refl) (λ _.
              execute_canonical-IsPermitted "calendar.create_meeting" (create_meeting_payload i) c
                s))))

  pub delete_event-IsPermitted :
      (event_id change_key mailbox : String) (c : Credentials) (s : State r)
      → IsPermitted r false c s (delete_event r c event_id change_key mailbox s).1
  unfolding delete_event
  delete_event-IsPermitted event_id change_key mailbox c s =
      IsPermitted-if r false c s (is_blank event_id) _ _ (inl refl) (λ _.
        IsPermitted-if r false c s (c.confirm_token == "") _ _ (inl refl) (λ _.
          execute_canonical-IsPermitted "calendar.delete_event"
            (delete_event_payload event_id change_key mailbox) c s))

  pub cancel_meeting-IsPermitted :
      (event_id change_key comment mailbox : String) (c : Credentials) (s : State r)
      → IsPermitted r false c s (cancel_meeting r c event_id change_key comment mailbox s).1
  unfolding cancel_meeting
  cancel_meeting-IsPermitted event_id change_key comment mailbox c s =
      IsPermitted-if r false c s (is_blank event_id) _ _ (inl refl) (λ _.
        IsPermitted-if r false c s (c.confirm_token == "") _ _ (inl refl) (λ _.
          execute_canonical-IsPermitted "calendar.cancel_meeting"
            (cancel_meeting_payload event_id change_key comment mailbox) c s))

  respond_named-IsPermitted :
      (i : RespondInput) (name : Option String) (send : Option Bool) (c : Credentials) (s : State r)
      → IsPermitted r false c s (respond_named r c i name send s).1
  respond_named-IsPermitted i none send c s = inl refl
  respond_named-IsPermitted i (some name) none c s = inl refl
  respond_named-IsPermitted i (some name) (some send) c s =
      IsPermitted-if r false c s (c.confirm_token == "") _ _ (inl refl) (λ _.
        dry_run-IsPermitted r false c (respond_reviewed r c)
          (λ summary v t h. finish_confirmed-IsPermitted r false false v c t h) "calendar.respond"
          (respond_payload i name send) false r.profile s)

  pub respond-IsPermitted :
      (i : RespondInput) (c : Credentials) (s : State r)
      → IsPermitted r false c s (respond r c i s).1
  unfolding respond
  respond-IsPermitted i c s =
      IsPermitted-if r false c s (is_blank i.event_id) _ _ (inl refl)
        (λ _. respond_named-IsPermitted i (normalize_respond_input i.response) i.send_response c s)
