-- ===== src/Server/Refusals.antt =====
-- What dryRunHandler answers to an action that it does not allow.
use outlook_agent.Prelude.{
  Bool, Result, String, arith, false, if◌then◌else◌, none, not, ok, true, ◌==◌, ◌≡◌,
}
use outlook_agent.Value.{Fields}
use outlook_agent.Server.{DryRunSummary, Runtime, State}
use outlook_agent.Server.Gate.{Reviewed, dry_run_review_for, record_audit}
use outlook_agent.Server.Canonical.{canonical_action_payload}
use outlook_agent.Server.Handlers.{early_reason, profile_or_default}
use outlook_agent.Server.DryRun.{
  DryRunInput, DryRunOutput, dry_run_handler, dry_run_reviewed, refused_early,
}

module _ (r : Runtime) where
  -- The answer carries no token and no challenge, and no store changed but the audit.
  abbrev pub IsEmptyHanded : DryRunOutput → State r → State r → Type 0
  IsEmptyHanded out s t =
      (out.confirmation_token ≡ "")
      × (out.approval_challenge ≡ none)
      × (t.confirms ≡ s.confirms)
      × (t.approvals ≡ s.approvals)
      × (t.executed ≡ s.executed)

  reviewed-IsEmptyHanded :
      (summary : DryRunSummary) (v : Reviewed) (s : State r) (out : DryRunOutput)
      → (dry_run_reviewed r (summary, v, s)).0 ≡ ok out
      → out.ok ≡ false
      → IsEmptyHanded out s (dry_run_reviewed r (summary, v, s)).1
  unfolding record_audit
  reviewed-IsEmptyHanded summary v s out answered refused = ground arith

  again-IsEmptyHanded :
      (action : String) (payload : Fields) (unsafe_mode : Bool) (profile : String) (s : State r)
      (out : DryRunOutput)
      → let p = dry_run_review_for r action payload unsafe_mode profile s in
        (dry_run_reviewed r p).0 ≡ ok out
        → out.ok ≡ false
        → IsEmptyHanded out s (dry_run_reviewed r p).1
  unfolding dry_run_review_for
  again-IsEmptyHanded action payload unsafe_mode profile s out answered refused =
      let p = dry_run_review_for r action payload unsafe_mode profile s in
      reviewed-IsEmptyHanded p.0 p.1 p.2 out answered refused

  early-IsEmptyHanded :
      (b : Bool) (message : String) (v : Reviewed) (s : State r)
      (rest : Result String DryRunOutput × State r) (out : DryRunOutput)
      → (rest.0 ≡ ok out → IsEmptyHanded out s rest.1)
      → (if b then refused_early r message v s else rest).0 ≡ ok out
      → IsEmptyHanded out s (if b then refused_early r message v s else rest).1
  unfolding record_audit
  early-IsEmptyHanded true message v s rest out h answered = ground arith
  early-IsEmptyHanded false message v s rest out h answered = h answered

  -- A dry run that answers `ok=false` carries no confirmation token and no approval challenge,
  -- issues neither, and executes nothing.
  pub dry_run_refused :
      (i : DryRunInput) (s : State r) (out : DryRunOutput)
      → (dry_run_handler r i s).0 ≡ ok out
      → out.ok ≡ false
      → IsEmptyHanded out s (dry_run_handler r i s).1
  unfolding dry_run_handler
  dry_run_refused i s out answered refused =
      let (payload, reason) = canonical_action_payload i.action i.payload in
      early-IsEmptyHanded (not (early_reason r i.action reason == "")) _ _ s
        (dry_run_reviewed r
          (dry_run_review_for r i.action payload i.unsafe_mode (profile_or_default r i.profile) s))
        out
        (λ e.
          again-IsEmptyHanded i.action payload i.unsafe_mode (profile_or_default r i.profile) s out
            e refused)
        answered
