-- ===== src/Server/Safety.antt =====
-- No handler executes an action that neither the policy nor the request's credentials permit.
use outlook_agent.Prelude.{
  Bool, Option, Option-cases, String, [], arith, false, if◌then◌else◌, inl, inr, none, refl, some,
  true, ℕ, ◌++◌, ◌∙◌, ◌∷◌, ◌≡◌, ◌≤◌, ◌⊎◌,
}
use outlook_agent.Policy.{Request}
use outlook_agent.Policy.Laws.{DirectlyAllowed}
use outlook_agent.Value.{Fields}
use outlook_agent.Confirm.Tokens.{Grants}
use outlook_agent.Approval.{message, required}
use outlook_agent.Approval.Challenges.{Approves}
use outlook_agent.Server.{ActionRequest, ActionResponse, DryRunSummary, EventType, Runtime, State}
use outlook_agent.Server.Gate.{
  Credentials, Reviewed, approval_binding_for, check_confirmed, check_tokens,
  confirmation_binding_for, decision_for, dry_run_review_for, record_audit, reject_with,
}
use outlook_agent.Server.Tokens.{check_tokens_pass, executed-check_tokens}
use outlook_agent.Server.Execute.{
  ActionResult, action_result_from_response, attach_mutation_manifest, attached, execute,
  execute_audited, finish,
}
use outlook_agent.Server.Targets.{
  has_explicit_target_for_action, requires_approval_for_class, safety_class_for_payload,
}

module _ (r : Runtime) where
  abbrev pub request_of : Reviewed → ActionRequest
  request_of v = record { name = v.action; payload = v.payload; unsafe_mode = v.unsafe_mode }

  pub executed-execute_audited :
      (v : Reviewed) (s : State r)
      → (execute_audited r v s).1.executed ≡ s.executed ++ request_of v ∷ []
  unfolding execute_audited execute
  executed-execute_audited v s = refl

  pub executed-attach :
      (action : String) (payload : Fields) (output : ActionResult) (s : State r)
      → (attach_mutation_manifest r action payload output s).1.executed ≡ s.executed
  unfolding attach_mutation_manifest
  executed-attach action payload output s = ground arith

  pub executed-attached :
      (with_manifest : Bool) (v : Reviewed) (p : ActionResponse × State r)
      → (attached r with_manifest v p).1.executed ≡ p.1.executed
  executed-attached false v (response, s) = refl
  executed-attached true v (response, s) =
      executed-attach v.action v.payload (action_result_from_response r response) s

  pub executed-record_audit :
      (type : EventType) (v : Reviewed) (d m : String) (s : State r)
      → (record_audit r type v d m s).executed ≡ s.executed
  unfolding record_audit
  executed-record_audit type v d m s = refl

  pub executed-finish :
      (with_manifest : Bool) (v : Reviewed) (s : State r) (o : Option String)
      → (finish r with_manifest v (s, o)).1.executed
        ≡ elim o [ some message ↦ s.executed | none ↦ s.executed ++ request_of v ∷ [] ]
  unfolding finish
  executed-finish with_manifest v s (some message) = refl
  executed-finish with_manifest v s none =
      executed-attached with_manifest v
        (execute_audited r v (record_audit r EventType.confirm v "accepted" "" s))
      ∙ executed-execute_audited v (record_audit r EventType.confirm v "accepted" "" s)

  -- The credentials permit the action: a confirmation token with this action's fingerprint, not
  -- expired when it was read, and, where the class is risky and the host requires approvals, the
  -- signature of an unexpired challenge with this action's binding.
  pub record IsAuthorized (v : Reviewed) (c : Credentials) (s : State r) : Type 0 where
    pub confirmed :
        (t : ℕ) × (s.ticks ≤ t)
        × Grants r.hashing c.confirm_token (confirmation_binding_for r v) (r.clock t) s.confirms
    pub approved :
        r.policy.mode ≡ required
        → requires_approval_for_class v.class ≡ true
        → Approves r.crypto c.challenge_id c.approval_token r.policy.secret
            (approval_binding_for r v)
            (r.clock s.ticks)
            s.approvals

  -- the class is the one that the server computes from the capabilities and the payload
  abbrev pub IsClassified : Reviewed → Type 0
  IsClassified v = v.class ≡ safety_class_for_payload r.client.capabilities v.action v.payload

  -- the policy's request for a direct call
  abbrev pub direct_request : Bool → Bool → Reviewed → Request
  direct_request intent unsafe_mode v = record {
    class = v.class;
    explicit_target = has_explicit_target_for_action v.action v.payload;
    explicit_intent = intent;
    unsafe_mode = unsafe_mode;
    sends_message = false;
  }

  -- The policy permits the action with no review.
  abbrev pub IsDirect : Bool → Reviewed → Type 0
  IsDirect intent v = (unsafe_mode : Bool) × DirectlyAllowed (direct_request intent unsafe_mode v)

  -- Either nothing was executed, or one request, of the class that the server computed, which the
  -- policy permits directly or the credentials authorize.
  abbrev pub IsPermitted : Bool → Credentials → State r → State r → Type 0
  IsPermitted intent c s t =
      (t.executed ≡ s.executed)
      ⊎ ((v : Reviewed) × (t.executed ≡ s.executed ++ request_of v ∷ [])
          × IsClassified v
          × (IsDirect intent v ⊎ IsAuthorized v c s))

  pub IsAuthorized-of_pass :
      (v : Reviewed) (c : Credentials) (s : State r)
      → (check_tokens r v c s).1 ≡ none
      → IsAuthorized v c s
  IsAuthorized-of_pass v c s e =
      let p = check_tokens_pass r v c s e in record { confirmed = p.0; approved = p.1 }

  pub finish_tokens-IsPermitted :
      (intent with_manifest : Bool) (v : Reviewed) (c : Credentials) (s : State r)
      → IsClassified v
      → IsPermitted intent c s (finish r with_manifest v (check_tokens r v c s)).1
  finish_tokens-IsPermitted intent m v c s h = elim (Option-cases (check_tokens r v c s).1) [
    | inl pass ↦ inr (
      v,
      executed-finish m v (check_tokens r v c s).0 (check_tokens r v c s).1
          ∙ rw pass (rw (executed-check_tokens r v c s)),
      h,
      inr (IsAuthorized-of_pass v c s pass),
    )
    | inr (message, stopped) ↦ inl (
        executed-finish m v (check_tokens r v c s).0 (check_tokens r v c s).1
        ∙ rw stopped (executed-check_tokens r v c s))
  ]

  pub executed-check_confirmed :
      (v : Reviewed) (c : Credentials) (s : State r)
      → (check_confirmed r v c s).0.executed ≡ s.executed
  unfolding check_confirmed record_audit
  executed-check_confirmed v c s = ground (arith, executed-check_tokens r v c s)

  pub pass_of_confirmed :
      (v : Reviewed) (c : Credentials) (s : State r)
      → (check_confirmed r v c s).1 ≡ none
      → ((check_tokens r v c s).1 ≡ none) × ((decision_for r v).allowed ≡ true)
  unfolding check_confirmed
  pass_of_confirmed v c s e = ground arith

  pub finish_confirmed-IsPermitted :
      (intent with_manifest : Bool) (v : Reviewed) (c : Credentials) (s : State r)
      → IsClassified v
      → IsPermitted intent c s (finish r with_manifest v (check_confirmed r v c s)).1
  finish_confirmed-IsPermitted intent m v c s h = elim (Option-cases (check_confirmed r v c s).1) [
    | inl pass ↦ inr (
      v,
      executed-finish m v (check_confirmed r v c s).0 (check_confirmed r v c s).1
          ∙ rw pass (rw (executed-check_confirmed v c s)),
      h,
      inr (IsAuthorized-of_pass v c s (pass_of_confirmed v c s pass).0),
    )
    | inr (message, stopped) ↦ inl (
        executed-finish m v (check_confirmed r v c s).0 (check_confirmed r v c s).1
        ∙ rw stopped (executed-check_confirmed v c s))
  ]

  pub reject-IsPermitted :
      (intent : Bool) (v : Reviewed) (c : Credentials) (message : String) (s : State r)
      → IsPermitted intent c s (reject_with r v message s)
  reject-IsPermitted intent v c message s =
      inl (executed-record_audit EventType.reject v "blocked" message s)

  pub IsPermitted-if :
      (intent : Bool) (c : Credentials) (s : State r) (b : Bool) (x y : ActionResult × State r)
      → IsPermitted intent c s x.1
      → (b ≡ false → IsPermitted intent c s y.1)
      → IsPermitted intent c s (if b then x else y).1
  IsPermitted-if intent c s true x y p q = p
  IsPermitted-if intent c s false x y p q = q refl

  pub world-IsPermitted :
      (intent : Bool) (c : Credentials) (s t : State r) (w : r.client.World)
      → IsPermitted intent c (record s { world = w }) t
      → IsPermitted intent c s t
  world-IsPermitted intent c s t w (inl same) = inl same
  world-IsPermitted intent c s t w (inr (v, ran, h, inl direct)) = inr (v, ran, h, inl direct)
  world-IsPermitted intent c s t w (inr (v, ran, h, inr a)) =
      inr (v, ran, h, inr (record { confirmed = a.confirmed; approved = a.approved }))

  -- What holds of a handler from the state after its dry run holds of it from the state before.
  pub dry_run-IsPermitted :
      (intent : Bool) (c : Credentials)
      (f : DryRunSummary × Reviewed × State r → ActionResult × State r)
      → ((summary : DryRunSummary) (v : Reviewed) (s : State r)
          → IsClassified v
          → IsPermitted intent c s (f (summary, v, s)).1)
      → (action : String) (payload : Fields) (unsafe_mode : Bool) (profile : String) (s : State r)
      → IsPermitted intent c s (f (dry_run_review_for r action payload unsafe_mode profile s)).1
  unfolding dry_run_review_for
  dry_run-IsPermitted intent c f h action payload unsafe_mode profile s =
      let p = dry_run_review_for r action payload unsafe_mode profile s in
      world-IsPermitted intent c s (f p).1 (p.2).world (h p.0 p.1 p.2 refl)
