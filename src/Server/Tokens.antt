-- ===== src/Server/Tokens.antt =====
-- What it takes to pass the gate.
use outlook_agent.Prelude.{
  Bool, Result-cases, arith, eq_refl, false, inl, inr, none, ok, subst, true, ℕ, ◌∙◌, ◌≡◌, ◌≤◌,
}
use outlook_agent.Table.{lookup}
use outlook_agent.Confirm.Tokens.{Grants, consume_iff, lookup-consume}
use outlook_agent.Approval
use outlook_agent.Approval.{required, is_required, require_approval}
use outlook_agent.Approval.Challenges.{Approves, validate_iff}
use outlook_agent.Server.{Runtime, State}
use outlook_agent.Server.Gate.{
  Credentials, Reviewed, approval_binding_for, check_tokens, confirmation_binding_for,
  consume_confirmation, consume_external_approval, record_audit, validate_external_approval,
}
use outlook_agent.Server.Targets.{requires_approval_for_class}

module _ (r : Runtime) (v : Reviewed) (c : Credentials) where
  pub validate_keeps :
      (s : State r)
      → let t = (validate_external_approval r v c s).0 in
        (t.confirms ≡ s.confirms)
        × (t.executed ≡ s.executed)
        × (t.manifests ≡ s.manifests)
        × (s.ticks ≤ t.ticks)
  unfolding validate_external_approval
  validate_keeps s = ground arith

  confirm_keeps :
      (s : State r)
      → let t = (consume_confirmation r v c s).0 in
        (t.executed ≡ s.executed) × (t.manifests ≡ s.manifests)
  unfolding consume_confirmation
  confirm_keeps s = ground arith

  pub approval_keeps :
      (pending : Bool) (s : State r)
      → let t = (consume_external_approval r pending v c s).0 in
        (t.executed ≡ s.executed) × (t.confirms ≡ s.confirms)
  unfolding consume_external_approval
  approval_keeps true s = ground arith
  approval_keeps false s = ground arith

  -- Neither the tokens nor a refusal executes anything.
  pub executed-check_tokens : (s : State r) → (check_tokens r v c s).0.executed ≡ s.executed
  unfolding check_tokens record_audit
  executed-check_tokens s = ground (
    arith,
    validate_keeps s,
    confirm_keeps (validate_external_approval r v c s).0,
    approval_keeps true (consume_confirmation r v c (validate_external_approval r v c s).0).0,
    approval_keeps false (consume_confirmation r v c (validate_external_approval r v c s).0).0,
  )

  -- the state that the confirmation token is consumed in
  abbrev pub validated : State r → State r
  validated s = (validate_external_approval r v c s).0

  confirmed_of_pass :
      (s : State r)
      → (check_tokens r v c s).1 ≡ none
      → (consume_confirmation r v c (validated s)).1 ≡ true
  unfolding check_tokens
  confirmed_of_pass s e = ground arith

  validated_of_pass :
      (s : State r)
      → (check_tokens r v c s).1 ≡ none
      → (pending : Bool) × ((validate_external_approval r v c s).1 ≡ ok pending)
  unfolding check_tokens
  validated_of_pass s e = elim (Result-cases (validate_external_approval r v c s).1) [
    | inl found ↦ found
    | inr (message, refused) ↦ ground (arith, refused)
  ]

  -- the confirmation token stands for exactly this reviewed action
  Grants-of_confirm :
      (s : State r)
      → (consume_confirmation r v c s).1 ≡ true
      → Grants r.hashing c.confirm_token (confirmation_binding_for r v) (r.clock s.ticks) s.confirms
  unfolding consume_confirmation
  Grants-of_confirm s e =
      (consume_iff r.hashing c.confirm_token (confirmation_binding_for r v) (r.clock s.ticks)
          s.confirms).0
        e

  Approves-of_required :
      (s : State r) (pending : Bool)
      → r.policy.mode ≡ required
      → requires_approval_for_class v.class ≡ true
      → (validate_external_approval r v c s).1 ≡ ok pending
      → (pending ≡ true)
        × ((Approval.validate r.crypto c.challenge_id c.approval_token r.policy.secret
              (approval_binding_for r v)
              (r.clock s.ticks)
              s.approvals).1
            ≡ none)
  unfolding validate_external_approval require_approval
  Approves-of_required s pending m h e = ground arith

  -- A request that passes the tokens holds a confirmation token, unexpired when it was read, with
  -- the fingerprint of this action, transport, profile, payload, mode, class and review. Where the
  -- class is risky and the host requires approvals, it also holds the signature of an unexpired
  -- challenge whose binding is that of this action.
  pub check_tokens_pass :
      (s : State r)
      → (check_tokens r v c s).1 ≡ none
      → ((t : ℕ) × (s.ticks ≤ t)
          × Grants r.hashing c.confirm_token (confirmation_binding_for r v) (r.clock t) s.confirms)
        × (r.policy.mode ≡ required
            → requires_approval_for_class v.class ≡ true
            → Approves r.crypto c.challenge_id c.approval_token r.policy.secret
                (approval_binding_for r v)
                (r.clock s.ticks)
                s.approvals)
  check_tokens_pass s e =
      let kept = validate_keeps s in
      let grant = Grants-of_confirm (validated s) (confirmed_of_pass s e) in
      let (pending, valid) = validated_of_pass s e in
      (
        (
          (validated s).ticks,
          kept.3,
          subst
              (λ t.
                Grants r.hashing c.confirm_token (confirmation_binding_for r v)
                  (r.clock (validated s).ticks) t)
              kept.0 grant,
        ),
        λ m h.
            (validate_iff r.crypto c.challenge_id c.approval_token r.policy.secret
                (approval_binding_for r v) (r.clock s.ticks) s.approvals).0
              (Approves-of_required s pending m h valid).1,
      )

  confirms_after :
      (s : State r)
      → (check_tokens r v c s).1 ≡ none
      → (check_tokens r v c s).0.confirms ≡ (consume_confirmation r v c (validated s)).0.confirms
  unfolding check_tokens
  confirms_after s e = ground (
    arith,
    approval_keeps true (consume_confirmation r v c (validated s)).0,
    approval_keeps false (consume_confirmation r v c (validated s)).0,
  )

  pub lookup-consume_confirmation :
      (s : State r)
      → lookup c.confirm_token (consume_confirmation r v c s).0.confirms.records ≡ none
  unfolding consume_confirmation
  lookup-consume_confirmation s =
      lookup-consume r.hashing c.confirm_token (confirmation_binding_for r v) (r.clock s.ticks)
        s.confirms c.confirm_token
      ∙ ground (arith, eq_refl c.confirm_token)

  -- The confirmation token of a request that passed is gone.
  pub token_spent :
      (s : State r)
      → (check_tokens r v c s).1 ≡ none
      → lookup c.confirm_token (check_tokens r v c s).0.confirms.records ≡ none
  token_spent s e = rw (confirms_after s e) (lookup-consume_confirmation (validated s))
