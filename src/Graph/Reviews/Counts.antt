-- ===== src/Graph/Reviews/Counts.antt =====
-- What the dry run of a reversible mutation shows of its targets.
use outlook_agent.Prelude.{
  Bool-cases, List, String, [], ap, arith, if◌then◌else◌, inl, inr, leb, leb→le, length, ltb, map,
  refl, subst, suc, sym, take, take_all, zero, ℕ, ◌-◌, ◌∙◌, ◌∷◌, ◌≡◌,
}
use outlook_agent.Policy.{SafetyClass}
use outlook_agent.Review.{TargetRef, clamp_target_refs, default_review_target_limit}
use outlook_agent.Value.{Fields, Value, array, as_fields, get_field, lookup_field}
use outlook_agent.Graph.Payload.{message_ids, reversible_class_for_count}
use outlook_agent.Graph.Reviews.{
  dry_run_mutation, message_target, messages_review, mutation_of, MutationReview,
  reversible_mutation_review, target_items, summary_of, shown_targets,
}

length-map : (ids : List String) → length (map message_target ids) ≡ length ids
length-map [] = refl
length-map (id ∷ ids) = omega (arith, length-map ids)

take-map :
    (n : ℕ) (ids : List String) → take n (map message_target ids) ≡ map message_target (take n ids)
take-map zero ids = refl
take-map (suc n) [] = refl
take-map (suc n) (id ∷ ids) = ap (λ ts. message_target id ∷ ts) (take-map n ids)

clamped :
    (targets : List TargetRef)
    → clamp_target_refs targets default_review_target_limit
      ≡ (take default_review_target_limit targets, length targets - default_review_target_limit)
unfolding clamp_target_refs
clamped targets = elim (Bool-cases (leb (length targets) default_review_target_limit)) [
  | inl short ↦
      let le = leb→le (length targets) default_review_target_limit short in
      let none_left : length targets - default_review_target_limit ≡ 0 = omega (arith, le) in
      rw (short, take_all default_review_target_limit targets le, none_left) refl
  | inr long ↦ rw long refl
]

-- the targets of a packet
abbrev pub packet_targets : Value → Value
packet_targets details = get_field "targets" (as_fields details)

abbrev pub limit : ℕ
limit = default_review_target_limit

module _ (fingerprint : Fields → String) (decimal : ℕ → String) where
  targets-messages_review :
      (action : String) (class : SafetyClass) (payload : Fields) (t : TargetRef)
      (ts : List TargetRef) (omitted : ℕ) (m : MutationReview)
      → let review = messages_review fingerprint decimal action class payload (t ∷ ts, omitted) m in
        (packet_targets review.details ≡ array (target_items (t ∷ ts)))
        × (review.completeness ≡ (if ltb 0 omitted then "partial" else "complete"))
  unfolding messages_review get_field lookup_field as_fields
  targets-messages_review action class payload t ts omitted m = (refl, refl)

  shown_of :
      (ids : List String)
      → shown_targets fingerprint decimal ids
        ≡ (map message_target (take limit ids), length ids - limit)
  shown_of ids =
      clamped (map message_target ids)
      ∙ ap (λ ts. (ts, length (map message_target ids) - limit)) (take-map limit ids)
      ∙ ap (λ n. (map message_target (take limit ids), n - limit)) (length-map ids)

  ltb-omitted : (n : ℕ) → ltb 0 (n - limit) ≡ ltb limit n
  ltb-omitted n = ground arith

  -- The dry run of a reversible mutation of at least one message counts its ids, asks for a
  -- confirmation exactly where there are several, lists in its review the ids in order up to the
  -- fiftieth, and calls the review partial exactly where there are more.
  pub dry_run_shows :
      (action : String) (payload : Fields) (id : String) (ids : List String)
      → message_ids payload ≡ id ∷ ids
      → let count = length (id ∷ ids) in
        let class = reversible_class_for_count count in
        let review =
          reversible_mutation_review fingerprint decimal action payload (id ∷ ids) class in
        (dry_run_mutation fingerprint decimal action payload
          ≡ summary_of fingerprint decimal action count (ltb 1 count) review review.limitations)
        × (packet_targets review.details
            ≡ array (target_items (map message_target (take limit (id ∷ ids)))))
        × (review.completeness ≡ (if ltb limit count then "partial" else "complete"))
  unfolding dry_run_mutation reversible_mutation_review
  dry_run_shows action payload id ids e =
      let count = length (id ∷ ids) in
      let class = reversible_class_for_count count in
      let m = mutation_of action payload in
      let first_ids = map message_target (take limit (id ∷ ids)) in
      let r =
        subst
          (λ shown.
            let review = messages_review fingerprint decimal action class payload shown m in
            (packet_targets review.details ≡ array (target_items first_ids))
            × (review.completeness ≡ (if ltb 0 (count - limit) then "partial" else "complete")))
          (sym (shown_of (id ∷ ids)))
          (targets-messages_review action class payload (message_target id)
            (map message_target (take 49 ids)) (count - limit) m) in
      (rw e refl, r.0, r.1 ∙ ap (λ b. if b then "partial" else "complete") (ltb-omitted count))
