-- ===== src/Server/Calls.antt =====
-- The tools that can execute something, as one function of the call, and the safety of each call.
use outlook_agent.Prelude.{Bool, List, Option, String, false, inl, none, refl, some, true}
use outlook_agent.Prelude.Text.{is_blank}
use outlook_agent.Server.{Runtime, State}
use outlook_agent.Server.Gate.{Credentials}
use outlook_agent.Server.Execute.{ActionResult}
use outlook_agent.Server.Handlers.{
  ActionConfirmInput, RawActionInput, action_confirm, move_to_deleted_items, raw_action,
  rule_set_enabled, send_draft,
}
use outlook_agent.Server.Mutations.{archive, categorize, flag, mark_read, move_to_folder}
use outlook_agent.Server.Calendar.{
  CreateMeetingInput, RespondInput, create_meeting, delete_event, cancel_meeting, respond,
}
use outlook_agent.Server.Safety.{IsPermitted, IsPermitted-if}
use outlook_agent.Server.Permits.{
  action_confirm-IsPermitted, create_meeting-IsPermitted, delete_event-IsPermitted,
  cancel_meeting-IsPermitted, respond-IsPermitted, move_to_deleted_items-IsPermitted,
  mutation-IsPermitted, raw_action-IsPermitted, rule_set_enabled-IsPermitted,
  send_draft-IsPermitted,
}

-- A call of one of the tools that can execute something in the mailbox.
pub data Call : Type 0 where
  confirmed : ActionConfirmInput → Call
  raw : RawActionInput → Call
  sent : String → String → Call
  deleted : List String → String → Call
  rule_set : String → Option Bool → String → String → Call
  moved : List String → String → String → Call
  archived : List String → String → Call
  flagged : List String → String → String → Call
  categorized : List String → Option (List String) → String → Call
  marked : List String → Option Bool → String → Call
  created : CreateMeetingInput → Call
  event_deleted : String → String → String → Call
  cancelled : String → String → String → String → Call
  responded : RespondInput → Call

abbrev pub credentials_of : Credentials → Call → Credentials
credentials_of c (confirmed i) = i.credentials
credentials_of c k = c

-- What the server takes for an explicit intent: the caller's flag for a raw action, and the tool
-- itself for the reversible mutations.
abbrev pub intent_of : Call → Bool
intent_of (raw i) = i.explicit_intent
intent_of (moved ids f m) = true
intent_of (archived ids m) = true
intent_of (flagged ids f m) = true
intent_of (categorized ids cs m) = true
intent_of (marked ids b m) = true
intent_of k = false

module _ (r : Runtime) (c : Credentials) where
  unfoldable pub handle : Call → State r → ActionResult × State r
  handle (confirmed i) s = action_confirm r i s
  handle (raw i) s = raw_action r i s
  handle (sent id m) s = send_draft r id m c s
  handle (deleted ids m) s = move_to_deleted_items r ids m c s
  handle (rule_set id b f m) s = rule_set_enabled r id b f m c s
  handle (moved ids f m) s = move_to_folder r c ids f m s
  handle (archived ids m) s = archive r c ids m s
  handle (flagged ids f m) s = flag r c ids f m s
  handle (categorized ids cs m) s = categorize r c ids cs m s
  handle (marked ids b m) s = mark_read r c ids b m s
  handle (created i) s = create_meeting r c i s
  handle (event_deleted id key m) s = delete_event r c id key m s
  handle (cancelled id key comment m) s = cancel_meeting r c id key comment m s
  handle (responded i) s = respond r c i s

  -- Whichever of these tools is called, with whatever input and in whatever state, at most one
  -- request is executed. Its class is the one computed from the capabilities and the payload. Either
  -- the policy permits that class without a confirmation, for the target in the payload and the
  -- intent of the call, or the credentials hold a confirmation token, unexpired when it was read,
  -- with the fingerprint of this action under this review, and, where the host requires approvals for
  -- the class, the signature of an unexpired challenge for the binding of this action and review.
  pub handle-IsPermitted :
      (k : Call) (s : State r) → IsPermitted r (intent_of k) (credentials_of c k) s (handle k s).1
  unfolding handle move_to_folder archive flag categorize mark_read
  handle-IsPermitted (confirmed i) s = action_confirm-IsPermitted r i s
  handle-IsPermitted (raw i) s = raw_action-IsPermitted r i c s
  handle-IsPermitted (sent id m) s = send_draft-IsPermitted r id m c s
  handle-IsPermitted (deleted ids m) s = move_to_deleted_items-IsPermitted r ids m c s
  handle-IsPermitted (rule_set id b f m) s = rule_set_enabled-IsPermitted r id b f m c s
  handle-IsPermitted (moved ids f m) s =
      IsPermitted-if r true c s (is_blank f) _ _ (inl refl) (λ _. mutation-IsPermitted r _ _ c s)
  handle-IsPermitted (archived ids m) s = mutation-IsPermitted r _ _ c s
  handle-IsPermitted (flagged ids f m) s =
      IsPermitted-if r true c s (is_blank f) _ _ (inl refl) (λ _. mutation-IsPermitted r _ _ c s)
  handle-IsPermitted (categorized ids none m) s = inl refl
  handle-IsPermitted (categorized ids (some cs) m) s = mutation-IsPermitted r _ _ c s
  handle-IsPermitted (marked ids none m) s = inl refl
  handle-IsPermitted (marked ids (some b) m) s = mutation-IsPermitted r _ _ c s
  handle-IsPermitted (created i) s = create_meeting-IsPermitted r i c s
  handle-IsPermitted (event_deleted id key m) s = delete_event-IsPermitted r id key m c s
  handle-IsPermitted (cancelled id key comment m) s =
      cancel_meeting-IsPermitted r id key comment m c s
  handle-IsPermitted (responded i) s = respond-IsPermitted r i c s
