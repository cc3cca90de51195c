-- ===== src/Server/Handlers.antt =====
-- The handlers that review, confirm and execute actions.
use outlook_agent.Prelude.{
  Bool, List, Option, String, [], false, if◌then◌else◌, nat_eq, none, not, some, true, ◌==◌, ◌∷◌,
}
use outlook_agent.Prelude.Text.{is_blank, trim_space}
use outlook_agent.Policy.{Decision, SafetyClass, evaluate, reversible_bulk}
use outlook_agent.Value.{
  Fields, Items, array, bool, cons, end, field, get_field, nil, set_field, text,
}
use outlook_agent.Server.{DryRunSummary, Runtime, State}
use outlook_agent.Server.Gate.{
  Credentials, Reviewed, check_confirmed, check_tokens, dry_run_review_for, reject_with,
  review_packet_for,
}
use outlook_agent.Server.Execute.{
  ActionResult, action_result_from_response, attached, execute_audited, failed, finish,
}
use outlook_agent.Server.Canonical.{action_preflight_rejection, canonical_action_payload}
use outlook_agent.Server.Targets.{
  count_explicit_target_value, has_explicit_target_for_action, safety_class_for_payload,
}

-- ActionConfirmInput
pub record ActionConfirmInput : Type 0 where
  pub action : String
  pub payload : Fields
  pub unsafe_mode : Bool
  pub profile : String
  pub credentials : Credentials

-- RawActionInput; the deprecated explicit_target is ignored
pub record RawActionInput : Type 0 where
  pub action : String
  pub payload : Fields
  pub unsafe_mode : Bool
  pub explicit_intent : Bool
  pub profile : String

-- withMailbox
unfoldable pub with_mailbox : Fields → String → Fields
with_mailbox payload mailbox =
    if is_blank mailbox then payload else set_field "mailbox" (text (trim_space mailbox)) payload

-- stringsToAny
unfoldable pub strings_to_any : List String → Items
strings_to_any [] = nil
strings_to_any (s ∷ rest) = cons (text s) (strings_to_any rest)

module _ (r : Runtime) where
  -- profileOrDefault
  abbrev pub profile_or_default : String → String
  profile_or_default profile = if is_blank profile then r.profile else profile

  abbrev pub unreviewed : String → Fields → Bool → String → Reviewed
  unreviewed action payload unsafe_mode profile =
      let class = safety_class_for_payload r.client.capabilities action payload in
      record {
        action = action;
        payload = payload;
        unsafe_mode = unsafe_mode;
        profile = profile;
        class = class;
        review = review_packet_for r action payload none class;
        count = 0;
      }

  -- a rejection before any dry run
  abbrev pub refuse_early : String → Reviewed → State r → ActionResult × State r
  refuse_early reason v s = (failed reason, reject_with r v reason s)

  -- the reason that canonicalActionPayload or actionPreflightRejection gives
  abbrev pub early_reason : String → String → String
  early_reason action reason = if reason == "" then action_preflight_rejection action else reason

  abbrev pub confirm_reviewed :
      Credentials → DryRunSummary × Reviewed × State r → ActionResult × State r
  confirm_reviewed c (summary, v, s) =
      if not (summary.error == "")
      then (failed (r.redact_text summary.error), reject_with r v (r.redact_text summary.error) s)
      else finish r true v (check_confirmed r v c s)

  abbrev pub confirm_canonical :
      ActionConfirmInput → State r → Fields × String → ActionResult × State r
  confirm_canonical i s (payload, reason) =
      let profile = profile_or_default i.profile in
      if not (early_reason i.action reason == "")
      then refuse_early (r.redact_text (early_reason i.action reason))
          (unreviewed i.action payload i.unsafe_mode profile) s
      else confirm_reviewed i.credentials
          (dry_run_review_for r i.action payload i.unsafe_mode profile s)

  -- actionConfirmHandler
  unfoldable pub action_confirm : ActionConfirmInput → State r → ActionResult × State r
  action_confirm i s = confirm_canonical i s (canonical_action_payload i.action i.payload)

  -- rawActionHandler
  unfoldable pub raw_action : RawActionInput → State r → ActionResult × State r
  raw_action i s =
      let v = unreviewed i.action i.payload i.unsafe_mode (profile_or_default i.profile) in
      let decision = evaluate (record {
        class = v.class;
        explicit_target = has_explicit_target_for_action i.action i.payload;
        explicit_intent = i.explicit_intent;
        unsafe_mode = i.unsafe_mode;
        sends_message = false;
      }) in
      if not (action_preflight_rejection i.action == "")
      then refuse_early (action_preflight_rejection i.action) v s
      else if not decision.allowed
      then refuse_early decision.reason v s
      else (let (response, s') = execute_audited r v s in
          (action_result_from_response r response, s'))

  abbrev pub calendar_reviewed :
      Credentials → DryRunSummary × Reviewed × State r → ActionResult × State r
  calendar_reviewed c (summary, v, s) =
      if not (summary.error == "")
      then (failed (r.redact_text summary.error), reject_with r v (r.redact_text summary.error) s)
      else finish r false v (check_confirmed r v c s)

  -- executeConfirmedCalendarAction
  unfoldable pub execute_confirmed_calendar_action :
      String → Fields → Credentials → State r → ActionResult × State r
  execute_confirmed_calendar_action action payload c s =
      calendar_reviewed c (dry_run_review_for r action payload false r.profile s)

  -- mailSendDraftHandler
  unfoldable pub send_draft : String → String → Credentials → State r → ActionResult × State r
  unfolding with_mailbox
  send_draft draft_id mailbox c s =
      if is_blank draft_id
      then (failed "draft_id required", s)
      else if c.confirm_token == ""
      then (failed "confirm_token required", s)
      else calendar_reviewed c (
          dry_run_review_for r "mail.send_draft"
            (with_mailbox (field "draft_id" (text draft_id) end) mailbox) false r.profile s)

  abbrev pub tokens_only :
      Bool → Credentials → DryRunSummary × Reviewed × State r → ActionResult × State r
  tokens_only with_manifest c (summary, v, s) = finish r with_manifest v (check_tokens r v c s)

  -- mailMoveToDeletedItemsHandler: no policy decision and no test of the dry run's error
  unfoldable pub move_to_deleted_items :
      List String → String → Credentials → State r → ActionResult × State r
  unfolding with_mailbox strings_to_any
  move_to_deleted_items ids mailbox c s =
      if c.confirm_token == ""
      then (failed "confirm_token required", s)
      else tokens_only true c (
          dry_run_review_for r "mail.move_to_deleted_items"
            (with_mailbox (field "ids" (array (strings_to_any ids)) end) mailbox) false r.profile s)

  -- mailRuleSetEnabledHandler
  unfoldable pub rule_set_enabled :
      String → Option Bool → String → String → Credentials → State r → ActionResult × State r
  unfolding with_mailbox
  rule_set_enabled rule_id none folder_id mailbox c s = (failed "enabled required", s)
  rule_set_enabled rule_id (some enabled) folder_id mailbox c s =
      if c.confirm_token == ""
      then (failed "confirm_token required", s)
      else tokens_only false c (
          dry_run_review_for r "mail.rules.set_enabled"
            (with_mailbox
              (field "id" (text rule_id)
                (field "enabled" (bool enabled) (field "folder_id" (text folder_id) end)))
              mailbox)
            false r.profile s)

  abbrev pub is_bulk : SafetyClass → Bool
  is_bulk reversible_bulk = true
  is_bulk c = false

  abbrev pub direct_decision : Reviewed → Decision
  direct_decision v = evaluate (record {
    class = v.class;
    explicit_target = has_explicit_target_for_action v.action v.payload;
    explicit_intent = true;
    unsafe_mode = false;
    sends_message = false;
  })

  abbrev pub mutate_reviewed :
      Credentials → DryRunSummary × Reviewed × State r → ActionResult × State r
  mutate_reviewed c (summary, v, s) =
      if is_bulk v.class
      then (if c.confirm_token == ""
          then (failed "confirm_token required", s)
          else finish r true v (check_confirmed r v c s))
      else if not (direct_decision v).allowed
      then (failed (direct_decision v).reason, reject_with r v (direct_decision v).reason s)
      else attached r true v (execute_audited r v s)

  -- executeReversibleMessageMutation
  unfoldable pub execute_reversible_message_mutation :
      String → Fields → Credentials → State r → ActionResult × State r
  execute_reversible_message_mutation action payload c s =
      if nat_eq (count_explicit_target_value (get_field "ids" payload)) 0
      then (failed "ids required", s)
      else mutate_reviewed c (dry_run_review_for r action payload false r.profile s)
