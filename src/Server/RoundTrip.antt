-- ===== src/Server/RoundTrip.antt =====
-- A dry run that allows an action issues a token with which the confirmation executes it.
use outlook_agent.Confirm.Tokens.{consume-generate}
use outlook_agent.Server.Handlers.{
  ActionConfirmInput, action_confirm, confirm_reviewed, early_reason, profile_or_default,
}
use outlook_agent.Server.Canonical.{canonical_action_payload}
use outlook_agent.Prelude.{
  Bool, Option, Result, String, [], ap, arith, eq_refl, false, if◌then◌else◌, none, not, ok, refl,
  some, subst, suc, sym, true, ℕ, ◌++◌, ◌+◌, ◌<◌, ◌==◌, ◌∙◌, ◌∷◌, ◌≡◌,
}
use outlook_agent.Prelude.Text.{trim_space}
use outlook_agent.Confirm
use outlook_agent.Approval.{dev, message, require_approval}
use outlook_agent.Server.{
  Fields, ActionRequest, DryRunSummary, Runtime, State, approval_challenge_ttl,
}
use outlook_agent.Server.Gate.{
  Credentials, Reviewed, check_confirmed, check_tokens, confirmation_binding_for,
  consume_confirmation, consume_external_approval, decision_for, dry_run_review_for, record_audit,
  validate_external_approval,
}
use outlook_agent.Server.Safety.{executed-check_confirmed, executed-finish, request_of}
use outlook_agent.Server.DryRun.{
  DryRunInput, DryRunOutput, dry_run_handler, dry_run_reviewed, refused_early,
}

generated_token :
    (h : Confirm.Hashing) (o : Option String) (b : Confirm.Binding) (ttl now : ℕ)
    (s : Confirm.Store)
    → (Confirm.generate h o b ttl now s).1 ≡ o
unfolding Confirm.generate
generated_token h none b ttl now s = refl
generated_token h (some token) b ttl now s = refl

-- the dry run's request for a canonical payload
abbrev pub dry_request : DryRunInput → ActionRequest
dry_request i = record {
  name = i.action;
  payload = (canonical_action_payload i.action i.payload).0;
  unsafe_mode = i.unsafe_mode;
}

-- the confirmation of what was dry-run, with its token and no approval
abbrev pub confirm_input : DryRunInput → String → ActionConfirmInput
confirm_input i token = record {
  action = i.action;
  payload = i.payload;
  unsafe_mode = i.unsafe_mode;
  profile = i.profile;
  credentials = record { confirm_token = token; challenge_id = ""; approval_token = "" };
}

module _ (r : Runtime) (dev_mode : r.policy.mode ≡ dev) where
  -- what an allowing dry run has checked and left behind
  allowed_parts :
      (summary : DryRunSummary) (v : Reviewed) (s : State r) (out : DryRunOutput)
      → (dry_run_reviewed r (summary, v, s)).0 ≡ ok out
      → out.ok ≡ true
      → let t = (dry_run_reviewed r (summary, v, s)).1 in
        ((summary.error == "") ≡ true)
        × ((decision_for r v).allowed ≡ true)
        × (t.confirms
            ≡ (Confirm.generate r.hashing
                (some out.confirmation_token)
                (confirmation_binding_for r v)
                approval_challenge_ttl
                (r.clock s.ticks)
                s.confirms).0)
        × (t.ticks ≡ suc s.ticks)
        × (t.executed ≡ s.executed)
  unfolding record_audit
  allowed_parts summary v s out e done = ground (
    arith,
    generated_token r.hashing (r.random s.draws) (confirmation_binding_for r v)
        approval_challenge_ttl (r.clock s.ticks) s.confirms,
  )

  no_approval :
      (v : Reviewed) (token : String) (s : State r)
      → validate_external_approval r v
          (record { confirm_token = token; challenge_id = ""; approval_token = "" })
          s
        ≡ (s, ok false)
  unfolding validate_external_approval require_approval trim_space
  no_approval v token s = ground arith

  -- the confirmation of the same reviewed action, in a store that holds its token
  gate_passes :
      (v : Reviewed) (token : String) (now : ℕ) (b : Confirm.Store) (t : State r)
      → t.confirms
        ≡ (Confirm.generate r.hashing
            (some token)
            (confirmation_binding_for r v)
            approval_challenge_ttl
            now
            b).0
      → r.clock t.ticks < now + approval_challenge_ttl
      → (decision_for r v).allowed ≡ true
      → (check_confirmed r v
          (record { confirm_token = token; challenge_id = ""; approval_token = "" })
          t).1
        ≡ none
  unfolding check_confirmed check_tokens consume_confirmation consume_external_approval
  gate_passes v token now b t held fresh allowed = ground (
    arith,
    no_approval v token t,
    consume-generate r.hashing token (confirmation_binding_for r v) (confirmation_binding_for r v)
        approval_challenge_ttl now (r.clock t.ticks) b,
    eq_refl (Confirm.fingerprint r.hashing (confirmation_binding_for r v)),
  )

  confirm_reviewed_executes :
      (summary : DryRunSummary) (v : Reviewed) (token : String) (now : ℕ) (b : Confirm.Store)
      (t : State r)
      → (summary.error == "") ≡ true
      → t.confirms
        ≡ (Confirm.generate r.hashing
            (some token)
            (confirmation_binding_for r v)
            approval_challenge_ttl
            now
            b).0
      → r.clock t.ticks < now + approval_challenge_ttl
      → (decision_for r v).allowed ≡ true
      → (confirm_reviewed r
          (record { confirm_token = token; challenge_id = ""; approval_token = "" })
          (summary, v, t)).1.executed
        ≡ t.executed ++ request_of r v ∷ []
  confirm_reviewed_executes summary v token now b t clean held fresh allowed =
      let c : Credentials = record {
        confirm_token = token;
        challenge_id = "";
        approval_token = "";
      } in
      let k = check_confirmed r v c t in
      rw clean (
        executed-finish r true v k.0 k.1
        ∙ rw (gate_passes v token now b t held fresh allowed)
            (rw (executed-check_confirmed r v c t)))

  review_again :
      (q : ActionRequest) (profile : String) (s t : State r)
      → (r.client.dry_run q t.world).0 ≡ (r.client.dry_run q s.world).0
      → dry_run_review_for r q.name q.payload q.unsafe_mode profile t ≡ (
        (dry_run_review_for r q.name q.payload q.unsafe_mode profile s).0,
        (dry_run_review_for r q.name q.payload q.unsafe_mode profile s).1,
        record t { world = (r.client.dry_run q t.world).1 },
      )
  unfolding dry_run_review_for
  review_again q profile s t same = cc

  ticks-dry_run_review_for :
      (action : String) (payload : Fields) (unsafe_mode : Bool) (profile : String) (s : State r)
      → ((dry_run_review_for r action payload unsafe_mode profile s).2.ticks ≡ s.ticks)
        × (request_of r (dry_run_review_for r action payload unsafe_mode profile s).1
            ≡ record { name = action; payload = payload; unsafe_mode = unsafe_mode })
  unfolding dry_run_review_for
  ticks-dry_run_review_for action payload unsafe_mode profile s = (refl, refl)

  -- the credentials that hold a confirmation token alone
  abbrev pub token_only : String → Credentials
  token_only token = record { confirm_token = token; challenge_id = ""; approval_token = "" }

  clock_at : (m n now : ℕ) → m ≡ suc n → r.clock (suc n) < now → r.clock m < now
  clock_at m n now e h = rw e h

  reviewed_executes :
      (summary : DryRunSummary) (v : Reviewed) (s : State r) (out : DryRunOutput)
      (w : r.client.World)
      → let t = (dry_run_reviewed r (summary, v, s)).1 in
        (dry_run_reviewed r (summary, v, s)).0 ≡ ok out
        → out.ok ≡ true
        → r.clock (suc s.ticks) < r.clock s.ticks + approval_challenge_ttl
        → (confirm_reviewed r
            (token_only out.confirmation_token)
            (summary, v, record t { world = w })).1.executed
          ≡ t.executed ++ request_of r v ∷ []
  reviewed_executes summary v s out w done allowed fresh =
      let t = (dry_run_reviewed r (summary, v, s)).1 in
      let parts = allowed_parts summary v s out done allowed in
      confirm_reviewed_executes summary v out.confirmation_token (r.clock s.ticks) s.confirms
        (record t { world = w }) parts.0 parts.2
        (clock_at t.ticks s.ticks (r.clock s.ticks + approval_challenge_ttl) parts.3 fresh) parts.1

  again_executes :
      (q : ActionRequest) (profile : String) (s : State r) (out : DryRunOutput)
      → let dry = dry_run_review_for r q.name q.payload q.unsafe_mode profile s in
        let t = (dry_run_reviewed r dry).1 in
        (dry_run_reviewed r dry).0 ≡ ok out
        → out.ok ≡ true
        → (r.client.dry_run q t.world).0 ≡ (r.client.dry_run q s.world).0
        → r.clock (suc s.ticks) < r.clock s.ticks + approval_challenge_ttl
        → (confirm_reviewed r
            (token_only out.confirmation_token)
            (dry_run_review_for r q.name q.payload q.unsafe_mode profile t)).1.executed
          ≡ t.executed ++ q ∷ []
  unfolding dry_run_review_for
  again_executes q profile s out done allowed same fresh =
      let dry = dry_run_review_for r q.name q.payload q.unsafe_mode profile s in
      let t = (dry_run_reviewed r dry).1 in
      ap (λ d. (confirm_reviewed r (token_only out.confirmation_token) d).1.executed)
        (review_again q profile s t same)
      ∙ reviewed_executes dry.0 dry.1 dry.2 out (r.client.dry_run q t.world).1 done allowed fresh

  not_refused :
      (b : Bool) (message : String) (v : Reviewed) (s : State r)
      (rest : Result String DryRunOutput × State r) (out : DryRunOutput)
      → (if b then refused_early r message v s else rest).0 ≡ ok out
      → out.ok ≡ true
      → b ≡ false
  not_refused true message v s rest out done allowed = ground arith
  not_refused false message v s rest out done allowed = refl

  if_false : {A : Type 0} → (b : Bool) (x y : A) → b ≡ false → (if b then x else y) ≡ y
  if_false true x y e = ground arith
  if_false false x y e = refl

  handler_reviewed :
      (i : DryRunInput) (s : State r) (out : DryRunOutput)
      → let p = canonical_action_payload i.action i.payload in
        (dry_run_handler r i s).0 ≡ ok out
        → out.ok ≡ true
        → (not (early_reason r i.action p.1 == "") ≡ false)
          × (dry_run_handler r i s
              ≡ dry_run_reviewed r (
                  dry_run_review_for r i.action p.0 i.unsafe_mode
                    (profile_or_default r i.profile)
                    s))
  unfolding dry_run_handler
  handler_reviewed i s out done allowed =
      let early = not_refused _ _ _ _ _ out done allowed in (early, if_false _ _ _ early)

  confirm_unfolds :
      (i : DryRunInput) (token : String) (t : State r)
      → let p = canonical_action_payload i.action i.payload in
        not (early_reason r i.action p.1 == "") ≡ false
        → action_confirm r (confirm_input i token) t
          ≡ confirm_reviewed r
              (token_only token)
              (dry_run_review_for r i.action p.0 i.unsafe_mode (profile_or_default r i.profile) t)
  unfolding action_confirm
  confirm_unfolds i token t early = if_false _ _ _ early

  -- A dry run that allows an action returns a token that confirms it: with the same action, payload,
  -- mode and profile, before the token expires, and as long as the transport's dry run answers as it
  -- did, actionConfirmHandler executes exactly the request with the canonical payload. No approval is
  -- needed in the development mode.
  pub dry_run_then_confirm :
      (i : DryRunInput) (s : State r) (out : DryRunOutput)
      → let t = (dry_run_handler r i s).1 in
        (dry_run_handler r i s).0 ≡ ok out
        → out.ok ≡ true
        → (r.client.dry_run (dry_request i) t.world).0
          ≡ (r.client.dry_run (dry_request i) s.world).0
        → r.clock (suc s.ticks) < r.clock s.ticks + approval_challenge_ttl
        → (action_confirm r (confirm_input i out.confirmation_token) t).1.executed
          ≡ t.executed ++ dry_request i ∷ []
  dry_run_then_confirm i s out done allowed same fresh =
      let (early, reviewed) = handler_reviewed i s out done allowed in
      ap (λ x. x.1.executed)
        (confirm_unfolds i out.confirmation_token (dry_run_handler r i s).1 early)
      ∙ subst
          (λ x.
            (confirm_reviewed r (token_only out.confirmation_token) (
              dry_run_review_for r i.action (dry_request i).payload i.unsafe_mode
                (profile_or_default r i.profile) x.1)).1.executed
            ≡ x.1.executed ++ dry_request i ∷ [])
          (sym reviewed)
          (again_executes (dry_request i) (profile_or_default r i.profile) s out
            (subst (λ x. x.0 ≡ ok out) reviewed done) allowed
            (subst
              (λ x.
                (r.client.dry_run (dry_request i) x.1.world).0
                ≡ (r.client.dry_run (dry_request i) s.world).0)
              reviewed same)
            fresh)
