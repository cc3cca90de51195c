-- ===== src/Server/Bodies/Counts.antt =====
-- The counts of a batch of bodies, and the requests that it makes.
use outlook_agent.Prelude.{
  Bool-cases, List, String, [], ap, arith, false, inl, inr, length, length-take, ltb, map,
  not-ltb→le, ok, refl, subst, suc, sym, take, take_all, ◌⊎◌, zero, ℤ, pos, negsuc, ℕ, ◌++◌, ◌+◌,
  ◌∙◌, ◌∷◌, ◌≡◌, ◌≤◌,
}
use mathlib.Core.List.{append-nil, append_assoc, map-append}
use outlook_agent.Value.{end, field, text}
use outlook_agent.Server.{ActionResponse, ActionRequest, Runtime, State}
use outlook_agent.Server.Canonical.{non_empty_strings}
use outlook_agent.Server.Handlers.{with_mailbox}
use outlook_agent.Server.Reads.{run_direct}
use outlook_agent.Server.Bodies.{
  BodyItem, MailFetchBodiesOutput, add_item, body_item, empty_output, fetch_all, fetch_bodies,
  fetch_each, fetch_ids, fetch_limit, fetch_present,
}

-- the request for one body
abbrev pub body_request : String → String → ActionRequest
body_request mailbox id = record {
  name = "mail.fetch_body";
  payload = with_mailbox (field "id" (text id) end) mailbox;
  unsafe_mode = false;
}

abbrev pub item_id : BodyItem → String
item_id item = item.id

module _ (r : Runtime) where
  add_item-tally :
      (item : BodyItem) (o : MailFetchBodiesOutput)
      → ((add_item r item o).succeeded + (add_item r item o).failed ≡ suc (o.succeeded + o.failed))
        × ((add_item r item o).results ≡ o.results ++ item ∷ [])
        × ((add_item r item o).attempted ≡ o.attempted)
  unfolding add_item
  add_item-tally item o = ground arith

  body_item-id : (id : String) (response : ActionResponse) → (body_item r id response).id ≡ id
  unfolding body_item
  body_item-id id response = ground arith

  fetch_each-parts :
      (mailbox : String) (ids : List String) (o : MailFetchBodiesOutput) (s : State r)
      → let p = fetch_each r mailbox ids (o, s) in
        (p.0.succeeded + p.0.failed ≡ length ids + (o.succeeded + o.failed))
        × (map item_id p.0.results ≡ map item_id o.results ++ ids)
        × (p.0.attempted ≡ o.attempted)
        × (p.1.direct ≡ s.direct ++ map (body_request mailbox) ids)
  unfolding fetch_each run_direct
  fetch_each-parts mailbox [] o s =
      (omega arith, sym (append-nil (map item_id o.results)), refl, sym (append-nil s.direct))
  fetch_each-parts mailbox (id ∷ ids) o s =
      let request = body_request mailbox id in
      let ran = r.client.execute request s.world in
      let item = body_item r id ran.0 in
      let rest =
        fetch_each-parts mailbox ids (add_item r item o)
          (record s { world = ran.1; direct = s.direct ++ request ∷ [] }) in
      let t = add_item-tally item o in
      (
        omega (arith, rest.0, t.0),
        rest.1
            ∙ ap (λ xs. map item_id xs ++ ids) t.1
            ∙ ap (λ xs. xs ++ ids) (map-append item_id o.results (item ∷ []))
            ∙ append_assoc (map item_id o.results) (item.id ∷ []) ids
            ∙ ap (λ x. map item_id o.results ++ x ∷ ids) (body_item-id id ran.0),
        rest.2 ∙ t.2,
        rest.3 ∙ append_assoc s.direct (request ∷ []) (map (body_request mailbox) ids),
      )

  fetch_ids-take : (ids : List String) (max : ℤ) → fetch_ids ids max ≡ take (fetch_limit max) ids
  unfolding fetch_ids
  fetch_ids-take ids max = elim (Bool-cases (ltb (fetch_limit max) (length ids))) [
    | inl e ↦ rw e refl
    | inr e ↦
        rw e (sym (take_all (fetch_limit max) ids (not-ltb→le (fetch_limit max) (length ids) e)))
  ]

  -- the counts, the results and the requests of a batch for these ids
  abbrev pub IsTally : String → List String → State r → State r → MailFetchBodiesOutput → Type 0
  IsTally mailbox asked s t out =
      (out.succeeded + out.failed ≡ out.attempted)
      × (out.attempted ≡ length asked)
      × (map item_id out.results ≡ asked)
      × (t.direct ≡ s.direct ++ map (body_request mailbox) asked)

  fetch_all-IsTally :
      (ids : List String) (mailbox : String) (s : State r) (out : MailFetchBodiesOutput)
      → (fetch_all r ids mailbox s).0 ≡ ok out
      → IsTally mailbox ids s (fetch_all r ids mailbox s).1 out
  fetch_all-IsTally ids mailbox s out e =
      let f = fetch_each-parts mailbox ids (empty_output r ids) s in
      let same : (fetch_each r mailbox ids (empty_output r ids, s)).0 ≡ out = ground arith in
      subst (IsTally mailbox ids s (fetch_all r ids mailbox s).1) same
        (omega (arith, f.0, f.2), f.2, f.1, f.3)

  fetch_present-IsTally :
      (kept : List String) (max : ℤ) (mailbox message : String) (s : State r)
      (out : MailFetchBodiesOutput)
      → let p = fetch_present r kept max mailbox message s in
        p.0 ≡ ok out → IsTally mailbox (fetch_ids kept max) s p.1 out
  fetch_present-IsTally [] max mailbox message s out e = ground arith
  fetch_present-IsTally (id ∷ ids) max mailbox message s out e =
      fetch_all-IsTally (fetch_ids (id ∷ ids) max) mailbox s out e

  -- the number of ids that a maximum allows: fifty, or the maximum where it is positive and smaller
  abbrev pub IsLimit : ℤ → ℕ → Type 0
  IsLimit (negsuc n) limit = limit ≡ 50
  IsLimit (pos zero) limit = limit ≡ 50
  IsLimit (pos (suc n)) limit = (limit ≤ 50) × (limit ≤ suc n) × ((limit ≡ 50) ⊎ (limit ≡ suc n))

  fetch_limit-IsLimit : (max : ℤ) → IsLimit max (fetch_limit max)
  unfolding fetch_limit
  fetch_limit-IsLimit (negsuc n) = refl
  fetch_limit-IsLimit (pos zero) = ground arith
  fetch_limit-IsLimit (pos (suc n)) = ground arith

  -- A batch of bodies asks the transport for the non-blank ids, trimmed, in order and one request
  -- each, up to the limit, and its results have these ids. The limit is the smaller of fifty and the
  -- maximum, or fifty if the maximum is not positive. `attempted` is the number of these ids, and
  -- `succeeded` plus `failed`.
  pub fetch_bodies-IsTally :
      (ids : List String) (max : ℤ) (mailbox message : String) (s : State r)
      (out : MailFetchBodiesOutput)
      → let p = fetch_bodies r ids max mailbox message s in
        p.0 ≡ ok out
        → (limit : ℕ) × IsLimit max limit
          × IsTally mailbox (take limit (non_empty_strings ids)) s p.1 out
          × (out.attempted ≤ limit)
  unfolding fetch_bodies
  fetch_bodies-IsTally ids max mailbox message s out e =
      let kept = non_empty_strings ids in
      let t =
        subst (λ asked. IsTally mailbox asked s (fetch_bodies r ids max mailbox message s).1 out)
          (fetch_ids-take kept max) (fetch_present-IsTally kept max mailbox message s out e) in
      (
        fetch_limit max,
        fetch_limit-IsLimit max,
        t,
        omega (arith, t.1, length-take (fetch_limit max) kept),
      )
