-- ===== src/Server/Audits.antt =====
-- The audit of what is executed.
use outlook_agent.Prelude.{
  Bool, List, Option, Result, String, [], ap, arith, err, false, if◌then◌else◌, none, not, ok, refl,
  some, sym, true, ◌++◌, ◌∙◌, ◌∷◌, ◌≡◌,
}
use outlook_agent.Value.{Fields}
use outlook_agent.Server.{
  ActionRequest, ActionResponse, DryRunSummary, Event, EventType, Runtime, State,
}
use outlook_agent.Server.Gate.{
  Credentials, Reviewed, check_confirmed, check_tokens, consume_confirmation,
  consume_external_approval, dry_run_review_for, record_audit, reject_with,
  validate_external_approval,
}
use outlook_agent.Server.Tokens.{executed-check_tokens}
use outlook_agent.Server.Execute.{
  ActionResult, attach_mutation_manifest, attached, execute_audited, finish,
  action_result_from_response,
}
use outlook_agent.Server.Execute
use outlook_agent.Approval
use outlook_agent.Server.Gate.{gate_consumed, gate_confirmed, gate_approved, decide, decision_for}
use outlook_agent.Server.Safety.{executed-record_audit, executed-attach, executed-check_confirmed}

-- the names of the actions that the audit's execute events record
abbrev pub executed_name : EventType → String → List String → List String
executed_name EventType.execute action rest = action ∷ rest
executed_name type action rest = rest

abbrev pub executions : List Event → List String
executions [] = []
executions (e ∷ es) = executed_name e.type e.action (executions es)

abbrev pub names : List ActionRequest → List String
names [] = []
names (q ∷ qs) = q.name ∷ names qs

executed_name-append :
    (type : EventType) (action : String) (xs ys : List String)
    → executed_name type action (xs ++ ys) ≡ executed_name type action xs ++ ys
executed_name-append EventType.execute action xs ys = refl
executed_name-append EventType.dry_run action xs ys = refl
executed_name-append EventType.confirm action xs ys = refl
executed_name-append EventType.reject action xs ys = refl

executions-append : (xs ys : List Event) → executions (xs ++ ys) ≡ executions xs ++ executions ys
executions-append [] ys = refl
executions-append (e ∷ es) ys =
    ap (executed_name e.type e.action) (executions-append es ys)
    ∙ executed_name-append e.type e.action (executions es) (executions ys)

names-append : (xs ys : List ActionRequest) → names (xs ++ ys) ≡ names xs ++ names ys
names-append [] ys = refl
names-append (q ∷ qs) ys = ap (λ rest. q.name ∷ rest) (names-append qs ys)

append-nil : (xs : List String) → xs ++ [] ≡ xs
append-nil [] = refl
append-nil (x ∷ xs) = ap (λ rest. x ∷ rest) (append-nil xs)

module _ (r : Runtime) where
  -- The audit's execute events are the executed requests, in order.
  abbrev pub IsAudited : State r → Type 0
  IsAudited s = executions s.audit ≡ names s.executed

  abbrev pub Audited : State r → State r → Type 0
  Audited s t = IsAudited s → IsAudited t

  Audited-of_same :
      (s t : State r)
      → executions t.audit ≡ executions s.audit
      → t.executed ≡ s.executed
      → Audited s t
  Audited-of_same s t a b h = a ∙ h ∙ ap names (sym b)

  quiet :
      (type : EventType) (v : Reviewed) (d m : String) (s : State r)
      → executed_name type v.action [] ≡ []
      → executions (record_audit r type v d m s).audit ≡ executions s.audit
  unfolding record_audit
  quiet type v d m s h = executions-append s.audit _ ∙ rw h (append-nil (executions s.audit))

  executions-reject_with :
      (v : Reviewed) (m : String) (s : State r)
      → executions (reject_with r v m s).audit ≡ executions s.audit
  executions-reject_with v m s = quiet EventType.reject v "blocked" m s refl

  audit-validate :
      (v : Reviewed) (c : Credentials) (s : State r)
      → (validate_external_approval r v c s).0.audit ≡ s.audit
  unfolding validate_external_approval
  audit-validate v c s = ground arith

  audit-consume_confirmation :
      (v : Reviewed) (c : Credentials) (s : State r)
      → (consume_confirmation r v c s).0.audit ≡ s.audit
  unfolding consume_confirmation
  audit-consume_confirmation v c s = ground arith

  audit-consume_external :
      (pending : Bool) (v : Reviewed) (c : Credentials) (s : State r)
      → (consume_external_approval r pending v c s).0.audit ≡ s.audit
  unfolding consume_external_approval
  audit-consume_external true v c s = ground arith
  audit-consume_external false v c s = ground arith

  executions-gate_consumed :
      (v : Reviewed) (p : State r × Option Approval.Error)
      → executions (gate_consumed r v p).0.audit ≡ executions p.0.audit
  executions-gate_consumed v (s, some e) = executions-reject_with v _ s
  executions-gate_consumed v (s, none) = refl

  executions-gate_confirmed :
      (pending : Bool) (v : Reviewed) (c : Credentials) (p : State r × Bool)
      → executions (gate_confirmed r pending v c p).0.audit ≡ executions p.0.audit
  executions-gate_confirmed pending v c (s, false) = executions-reject_with v _ s
  executions-gate_confirmed pending v c (s, true) =
      executions-gate_consumed v (consume_external_approval r pending v c s)
      ∙ ap executions (audit-consume_external pending v c s)

  executions-gate_approved :
      (v : Reviewed) (c : Credentials) (p : State r × Result String Bool)
      → executions (gate_approved r v c p).0.audit ≡ executions p.0.audit
  executions-gate_approved v c (s, err message) = executions-reject_with v message s
  executions-gate_approved v c (s, ok pending) =
      executions-gate_confirmed pending v c (consume_confirmation r v c s)
      ∙ ap executions (audit-consume_confirmation v c s)

  executions-check_tokens :
      (v : Reviewed) (c : Credentials) (s : State r)
      → executions (check_tokens r v c s).0.audit ≡ executions s.audit
  unfolding check_tokens
  executions-check_tokens v c s =
      executions-gate_approved v c (validate_external_approval r v c s)
      ∙ ap executions (audit-validate v c s)

  executions-if :
      (s : State r) (b : Bool) (x y : State r × Option String)
      → executions x.0.audit ≡ executions s.audit
      → executions y.0.audit ≡ executions s.audit
      → executions (if b then x else y).0.audit ≡ executions s.audit
  executions-if s true x y p q = p
  executions-if s false x y p q = q

  executions-decide :
      (v : Reviewed) (p : State r × Option String)
      → executions (decide r v p).0.audit ≡ executions p.0.audit
  executions-decide v (s, some message) = refl
  executions-decide v (s, none) =
      executions-if s (not (decision_for r v).allowed) _ _
        (executions-reject_with v (decision_for r v).reason s) refl

  executions-check_confirmed :
      (v : Reviewed) (c : Credentials) (s : State r)
      → executions (check_confirmed r v c s).0.audit ≡ executions s.audit
  unfolding check_confirmed
  executions-check_confirmed v c s =
      executions-decide v (check_tokens r v c s) ∙ executions-check_tokens v c s

  execute_audited-Audited : (v : Reviewed) (s : State r) → Audited s (execute_audited r v s).1
  unfolding execute_audited Execute.execute record_audit
  execute_audited-Audited v s h =
      executions-append s.audit _ ∙ rw h (sym (names-append s.executed _))

  audit-attach :
      (action : String) (payload : Fields) (output : ActionResult) (s : State r)
      → (attach_mutation_manifest r action payload output s).1.audit ≡ s.audit
  unfolding attach_mutation_manifest
  audit-attach action payload output s = ground arith

  pub attached-Audited :
      (with_manifest : Bool) (v : Reviewed) (p : ActionResponse × State r)
      → Audited p.1 (attached r with_manifest v p).1
  attached-Audited false v (response, s) h = h
  attached-Audited true v (response, s) h =
      let output = action_result_from_response r response in
      Audited-of_same s (attach_mutation_manifest r v.action v.payload output s).1
        (ap executions (audit-attach v.action v.payload output s))
        (executed-attach r v.action v.payload output s) h

  pub direct-Audited :
      (with_manifest : Bool) (v : Reviewed) (s : State r)
      → Audited s (attached r with_manifest v (execute_audited r v s)).1
  direct-Audited m v s h =
      attached-Audited m v (execute_audited r v s) (execute_audited-Audited v s h)

  finish-Audited :
      (with_manifest : Bool) (v : Reviewed) (s : State r) (o : Option String)
      → Audited s (finish r with_manifest v (s, o)).1
  unfolding finish
  finish-Audited m v s (some message) h = h
  finish-Audited m v s none h =
      let t = record_audit r EventType.confirm v "accepted" "" s in
      direct-Audited m v t (
        Audited-of_same s t (quiet EventType.confirm v "accepted" "" s refl)
          (executed-record_audit r EventType.confirm v "accepted" "" s) h)

  pub finish_tokens-Audited :
      (with_manifest : Bool) (v : Reviewed) (c : Credentials) (s : State r)
      → Audited s (finish r with_manifest v (check_tokens r v c s)).1
  finish_tokens-Audited m v c s h =
      let k = check_tokens r v c s in
      finish-Audited m v k.0 k.1
        (Audited-of_same s k.0 (executions-check_tokens v c s) (executed-check_tokens r v c s) h)

  pub finish_confirmed-Audited :
      (with_manifest : Bool) (v : Reviewed) (c : Credentials) (s : State r)
      → Audited s (finish r with_manifest v (check_confirmed r v c s)).1
  finish_confirmed-Audited m v c s h =
      let k = check_confirmed r v c s in
      finish-Audited m v k.0 k.1 (
        Audited-of_same s k.0 (executions-check_confirmed v c s) (executed-check_confirmed r v c s)
          h)

  pub reject-Audited :
      (v : Reviewed) (message : String) (s : State r) → Audited s (reject_with r v message s)
  reject-Audited v message s =
      Audited-of_same s (reject_with r v message s) (executions-reject_with v message s)
        (executed-record_audit r EventType.reject v "blocked" message s)

  pub Audited-if :
      (s : State r) (b : Bool) (x y : ActionResult × State r)
      → Audited s x.1
      → Audited s y.1
      → Audited s (if b then x else y).1
  Audited-if s true x y p q = p
  Audited-if s false x y p q = q

  -- What holds of a handler from the state after its dry run holds of it from the state before.
  pub dry_run-Audited :
      (f : DryRunSummary × Reviewed × State r → ActionResult × State r)
      → ((summary : DryRunSummary) (v : Reviewed) (s : State r) → Audited s (f (summary, v, s)).1)
      → (action : String) (payload : Fields) (unsafe_mode : Bool) (profile : String) (s : State r)
      → Audited s (f (dry_run_review_for r action payload unsafe_mode profile s)).1
  unfolding dry_run_review_for
  dry_run-Audited f h action payload unsafe_mode profile s =
      let p = dry_run_review_for r action payload unsafe_mode profile s in h p.0 p.1 p.2
