-- ===== src/Server/Replay.antt =====
-- actionConfirmHandler called again and again with one confirmation token.
use outlook_agent.Table.{lookup}
use outlook_agent.Prelude.{
  All, Bool, List, Option, Option-cases, String, [], ap, arith, false, if◌then◌else◌, inl, inr,
  length, length-append, none, not, refl, some, subst, suc, true, ◌++◌, ◌==◌, ◌∙◌, ◌∷◌, ◌≡◌, ◌≢◌,
  ◌≤◌, ◌⊎◌,
}
use outlook_agent.Value.{Fields}
use outlook_agent.Server.{Runtime, State}
use outlook_agent.Server.Tokens.{
  approval_keeps, check_tokens_pass, lookup-consume_confirmation, token_spent, validate_keeps,
  validated,
}
use outlook_agent.Server.Safety.{
  executed-check_confirmed, executed-finish, pass_of_confirmed, request_of,
}
use outlook_agent.Server.Handlers.{
  ActionConfirmInput, action_confirm, confirm_reviewed, early_reason, profile_or_default,
  unreviewed,
}
use outlook_agent.Server.Canonical.{canonical_action_payload}
use outlook_agent.Server.Gate.{
  Credentials, Reviewed, check_confirmed, check_tokens, consume_confirmation, dry_run_review_for,
  record_audit, reject_with,
}
use outlook_agent.Server.Execute.{
  ActionResult, attach_mutation_manifest, execute, execute_audited, finish,
}

abbrev pub HasToken : String → ActionConfirmInput → Type 0
HasToken token i = i.credentials.confirm_token ≡ token

module _ (r : Runtime) where
  confirms-attach :
      (action : String) (payload : Fields) (output : ActionResult) (s : State r)
      → (attach_mutation_manifest r action payload output s).1.confirms ≡ s.confirms
  unfolding attach_mutation_manifest
  confirms-attach action payload output s = ground arith

  confirms-finish :
      (with_manifest : Bool) (v : Reviewed) (s : State r) (o : Option String)
      → (finish r with_manifest v (s, o)).1.confirms ≡ s.confirms
  unfolding finish execute_audited execute record_audit
  confirms-finish m v s (some message) = refl
  confirms-finish false v s none = refl
  confirms-finish true v s none = confirms-attach v.action v.payload _ _

  -- the store does not hold the confirmation token
  abbrev pub IsGone : String → State r → Type 0
  IsGone token s = lookup token s.confirms.records ≡ none

  -- A handler's step with a token: without the token it executes nothing, and when it executes one
  -- request the token is gone.
  abbrev pub Spends : String → State r → State r → Type 0
  Spends token s t =
      (IsGone token s → IsGone token t × (t.executed ≡ s.executed))
      × ((t.executed ≡ s.executed)
          ⊎ (IsGone token t × (length t.executed ≡ suc (length s.executed))))

  module _ (v : Reviewed) (c : Credentials) where
    IsGone-kept :
        (s : State r) → IsGone c.confirm_token s → IsGone c.confirm_token (check_tokens r v c s).0
    unfolding check_tokens record_audit
    IsGone-kept s gone = ground (
      arith,
      validate_keeps r v c s,
      lookup-consume_confirmation r v c (validated r v c s),
      approval_keeps r v c true (consume_confirmation r v c (validated r v c s)).0,
      approval_keeps r v c false (consume_confirmation r v c (validated r v c s)).0,
    )

    confirms-check_confirmed :
        (s : State r) → (check_confirmed r v c s).0.confirms ≡ (check_tokens r v c s).0.confirms
    unfolding check_confirmed record_audit
    confirms-check_confirmed s = ground arith

    no_pass : (s : State r) → IsGone c.confirm_token s → (check_tokens r v c s).1 ≢ none
    no_pass s gone pass =
        let held = (check_tokens_pass r v c s pass).0 in
        let (record_, found, fresh, same) = held.2 in ground (arith, gone, found)

    executed_by :
        (s : State r) (o : Option String)
        → (check_confirmed r v c s).1 ≡ o
        → (finish r true v (check_confirmed r v c s)).1.executed
          ≡ elim o [ some message ↦ s.executed | none ↦ s.executed ++ request_of r v ∷ [] ]
    executed_by s o e =
        let still = executed-check_confirmed r v c s in
        subst
          (λ x.
            (finish r true v (check_confirmed r v c s)).1.executed
            ≡ elim o [ some message ↦ x | none ↦ x ++ request_of r v ∷ [] ])
          still
          (subst
            (λ k. (finish r true v (check_confirmed r v c s)).1.executed ≡ elim k [
              | some message ↦ (check_confirmed r v c s).0.executed
              | none ↦ (check_confirmed r v c s).0.executed ++ request_of r v ∷ []
            ])
            e (executed-finish r true v (check_confirmed r v c s).0 (check_confirmed r v c s).1))

    confirms_by :
        (s : State r)
        → (finish r true v (check_confirmed r v c s)).1.confirms ≡ (check_tokens r v c s).0.confirms
    confirms_by s =
        confirms-finish true v (check_confirmed r v c s).0 (check_confirmed r v c s).1
        ∙ confirms-check_confirmed s

    finish-Spends :
        (s : State r) → Spends c.confirm_token s (finish r true v (check_confirmed r v c s)).1
    finish-Spends s = elim (Option-cases (check_confirmed r v c s).1) [
      | inl pass ↦
          (let passed = (pass_of_confirmed r v c s pass).0 in
            (
              λ gone. ground (arith, no_pass s gone, passed),
              inr (
                rw (confirms_by s) (token_spent r v c s passed),
                rw (executed_by s none pass)
                    (omega (arith, length-append s.executed (request_of r v ∷ []))),
              ),
            ))
      | inr (message, stopped) ↦ (
        λ gone. (rw (confirms_by s) (IsGone-kept s gone), executed_by s (some message) stopped),
        inl (executed_by s (some message) stopped),
      )
    ]

    reject-Spends :
        (s : State r) (message : String) → Spends c.confirm_token s (reject_with r v message s)
    unfolding record_audit
    reject-Spends s message = (λ gone. (gone, refl), inl refl)

  Spends-if :
      (token : String) (s : State r) (b : Bool) (x y : ActionResult × State r)
      → Spends token s x.1
      → Spends token s y.1
      → Spends token s (if b then x else y).1
  Spends-if token s true x y p q = p
  Spends-if token s false x y p q = q

  dry_run-Spends :
      (c : Credentials) (action : String) (payload : Fields) (unsafe_mode : Bool) (profile : String)
      (s : State r)
      → Spends c.confirm_token s
          (confirm_reviewed r c (dry_run_review_for r action payload unsafe_mode profile s)).1
  unfolding dry_run_review_for
  dry_run-Spends c action payload unsafe_mode profile s =
      let (summary, v, s') = dry_run_review_for r action payload unsafe_mode profile s in
      Spends-if c.confirm_token s' (not (summary.error == "")) _ _
        (reject-Spends v c s' (r.redact_text summary.error)) (finish-Spends v c s')

  action_confirm-Spends :
      (i : ActionConfirmInput) (s : State r)
      → Spends i.credentials.confirm_token s (action_confirm r i s).1
  unfolding action_confirm
  action_confirm-Spends i s =
      let (payload, reason) = canonical_action_payload i.action i.payload in
      Spends-if i.credentials.confirm_token s (not (early_reason r i.action reason == "")) _ _
        (reject-Spends
          (unreviewed r i.action payload i.unsafe_mode (profile_or_default r i.profile))
          i.credentials s (r.redact_text (early_reason r i.action reason)))
        (dry_run-Spends i.credentials i.action payload i.unsafe_mode
          (profile_or_default r i.profile) s)

  -- one call of actionConfirmHandler after the other
  abbrev pub confirm_all : List ActionConfirmInput → State r → State r
  confirm_all [] s = s
  confirm_all (i ∷ rest) s = confirm_all rest (action_confirm r i s).1

  nothing_executed :
      (token : String) (is : List ActionConfirmInput) (s : State r)
      → All (HasToken token) is
      → IsGone token s
      → (confirm_all is s).executed ≡ s.executed
  nothing_executed token [] s same gone = refl
  nothing_executed token (i ∷ rest) s (first, same) gone =
      let step : Spends token s (action_confirm r i s).1 =
        subst (λ k. Spends k s (action_confirm r i s).1) first (action_confirm-Spends i s) in
      let (gone', kept) = step.0 gone in
      nothing_executed token rest (action_confirm r i s).1 same gone' ∙ kept

  -- However often and for whatever actions actionConfirmHandler is called with one confirmation
  -- token, from any state, it executes at most one request in all.
  pub confirm_at_most_once :
      (token : String) (is : List ActionConfirmInput) (s : State r)
      → All (HasToken token) is
      → length (confirm_all is s).executed ≤ suc (length s.executed)
  confirm_at_most_once token [] s same = omega arith
  confirm_at_most_once token (i ∷ rest) s (first, same) =
      let t = (action_confirm r i s).1 in
      let step : Spends token s t = subst (λ k. Spends k s t) first (action_confirm-Spends i s) in
      elim step.1 [
        | inl kept ↦ rw kept at (confirm_at_most_once token rest t same)
        | inr (gone, ran) ↦ omega (arith, ran, ap length (nothing_executed token rest t same gone))
      ]
