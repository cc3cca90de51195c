-- ===== src/Graph/Manifests.antt =====
-- What a batch of mutations reports of its ids, and the manifest that the server draws from it.
use outlook_agent.Prelude.{
  Bool-cases, List, Option, Result, String, [], ap, err, false, if◌then◌else◌, inl, inr, map, none,
  ok, refl, some, subst, sym, true, ◌++◌, ◌∙◌, ◌∷◌, ◌≡◌,
}
use mathlib.Core.List.{append-nil, append_assoc, map-append}
use outlook_agent.Prelude.Text.{contains, contains_one, has_prefix, is_blank, to_lower}
use outlook_agent.Value.{Fields, lookup_field}
use outlook_agent.Redact
use outlook_agent.Server.{Runtime}
use outlook_agent.Server.Execute.{
  action_result_from_response, manifest_ids, manifest_ids_from_data_key, manifest_ids_from_value,
  move_like_mutation_action,
}
use outlook_agent.Graph.Runs.{
  Ran, failed_id, move_messages-HasRun, move_one, patch_messages-HasRun, patch_one,
}
use outlook_agent.Graph.Messages.{
  BulkMoveResult, Host, batch_fields, empty_result, fail_all, for_each, noted, move_messages,
  patch_messages, reversible_mutation_response, with_failure, with_moved, with_patched,
}

-- the first list is the other two merged, each in its order
pub data Splits : List String → List String → List String → Type 0 where
  empty : Splits [] [] []
  left :
      {ids done missed : List String} (id : String)
      → Splits ids done missed
      → Splits (id ∷ ids) (id ∷ done) missed
  right :
      {ids done missed : List String} (id : String)
      → Splits ids done missed
      → Splits (id ∷ ids) done (id ∷ missed)

-- `b` is `a` with these ids done and these missed
abbrev pub Extends : BulkMoveResult → List String → List String → BulkMoveResult → Type 0
Extends a done missed b =
    (b.succeeded ≡ a.succeeded ++ done)
    × (map failed_id b.failed ≡ map failed_id a.failed ++ missed)

-- each id is done or missed, once and in order
abbrev pub IsBatch : List String → BulkMoveResult → BulkMoveResult → Type 0
IsBatch ids a b =
    (done : List String) × (missed : List String) × Splits ids done missed × Extends a done missed b

missed_first :
    (id message : String) (ids : List String) (a b : BulkMoveResult)
    → IsBatch ids (with_failure id message a) b
    → IsBatch (id ∷ ids) a b
missed_first id message ids a b h = (
  h.0,
  id ∷ h.1,
  right id h.2,
  (
    h.3.0,
    h.3.1
        ∙ ap (λ xs. xs ++ h.1) (map-append failed_id a.failed ((id, message) ∷ []))
        ∙ append_assoc (map failed_id a.failed) (id ∷ []) h.1,
  ),
)

done_first :
    (id : String) (ids : List String) (a t b : BulkMoveResult)
    → t.succeeded ≡ a.succeeded ++ id ∷ []
    → t.failed ≡ a.failed
    → IsBatch ids t b
    → IsBatch (id ∷ ids) a b
done_first id ids a t b s f h = (
  id ∷ h.0,
  h.1,
  left id h.2,
  (
    h.3.0 ∙ ap (λ xs. xs ++ h.0) s ∙ append_assoc a.succeeded (id ∷ []) h.0,
    h.3.1 ∙ ap (λ xs. map failed_id xs ++ h.1) f,
  ),
)

nothing_left : (a : BulkMoveResult) → IsBatch [] a a
nothing_left a =
    ([], [], empty, (sym (append-nil a.succeeded), sym (append-nil (map failed_id a.failed))))

fail_all-IsBatch :
    (message : String) (ids : List String) (a : BulkMoveResult)
    → IsBatch ids a (fail_all message ids a)
unfolding fail_all
fail_all-IsBatch message [] a = nothing_left a
fail_all-IsBatch message (id ∷ ids) a =
    missed_first id message ids a (fail_all message (id ∷ ids) a)
      (fail_all-IsBatch message ids (with_failure id message a))

-- how a batch takes down an id that is done
abbrev Notes : (String → String → BulkMoveResult → BulkMoveResult) → Type 0
Notes note =
    (id new_id : String) (a : BulkMoveResult)
    → ((note id new_id a).succeeded ≡ a.succeeded ++ id ∷ [])
      × ((note id new_id a).failed ≡ a.failed)

Notes-with_moved : Notes with_moved
Notes-with_moved id new_id a = (refl, refl)

Notes-with_patched : Notes with_patched
Notes-with_patched id new_id a = (refl, refl)

noted-IsBatch :
    (note : String → String → BulkMoveResult → BulkMoveResult)
    → Notes note
    → (id : String) (x : Result String String) (ids : List String) (a b : BulkMoveResult)
    → IsBatch ids (noted note id x a) b
    → IsBatch (id ∷ ids) a b
noted-IsBatch note notes id (ok new_id) ids a b h =
    done_first id ids a (note id new_id a) b (notes id new_id a).0 (notes id new_id a).1 h
noted-IsBatch note notes id (err message) ids a b h = missed_first id message ids a b h

module _ (h : Host) where
  for_each-IsBatch :
      (run : String → h.World → Result String String × h.World)
      (note : String → String → BulkMoveResult → BulkMoveResult)
      → Notes note
      → (ids : List String) (a : BulkMoveResult) (w : h.World)
      → IsBatch ids a (for_each h run note ids (a, w)).0
  unfolding for_each
  for_each-IsBatch run note notes [] a w = nothing_left a
  for_each-IsBatch run note notes (id ∷ ids) a w =
      let ran = run id w in
      noted-IsBatch note notes id ran.0 ids a (for_each h run note (id ∷ ids) (a, w)).0
        (for_each-IsBatch run note notes ids (noted note id ran.0 a) ran.1)

  move_messages-IsBatch :
      (mailbox : String) (ids : List String) (destination : String) (w : h.World)
      → IsBatch ids empty_result (move_messages h mailbox ids destination w).0
  unfolding move_messages
  move_messages-IsBatch mailbox ids destination w = elim (Bool-cases (is_blank destination)) [
    | inl e ↦ rw e (fail_all-IsBatch "destination folder id is required" ids empty_result)
    | inr e ↦ rw e (
        for_each-IsBatch (λ id. h.move mailbox id destination) with_moved Notes-with_moved ids
          empty_result w)
  ]

  patch_messages-IsBatch :
      (mailbox : String) (ids : List String) (change : Fields) (w : h.World)
      → IsBatch ids empty_result (patch_messages h mailbox ids change w).0
  unfolding patch_messages
  patch_messages-IsBatch mailbox ids change w =
      for_each-IsBatch (λ id. h.patch mailbox id change) with_patched Notes-with_patched ids
        empty_result w

  -- A batch that moves or patches messages accounts for every id that it is given: the ids are the
  -- succeeded and the failed ones merged, each list in the order of the ids.
  pub batch-Splits :
      (mailbox : String) (ids : List String) (destination : String) (change : Fields) (w : h.World)
      → let moved = (move_messages h mailbox ids destination w).0 in
        let patched = (patch_messages h mailbox ids change w).0 in
        Splits ids moved.succeeded (map failed_id moved.failed)
        × Splits ids patched.succeeded (map failed_id patched.failed)
  batch-Splits mailbox ids destination change w =
      let m = move_messages-IsBatch mailbox ids destination w in
      let p = patch_messages-IsBatch mailbox ids change w in
      (rw (m.3.0, m.3.1) m.2, rw (p.3.0, p.3.1) p.2)

  abbrev pub listed : List String → Option (List String)
  listed [] = none
  listed (id ∷ ids) = some (id ∷ ids)

  -- what the manifest of a change in place lists: the ids done, or nothing if every id failed
  abbrev pub patched_list : List String → List String → Option (List String)
  patched_list [] (id ∷ missed) = none
  patched_list done missed = some done

  module _ (r : Runtime) where
    moved_manifest :
        (action : String) (payload : Fields) (ids done : List String)
        (failed : List (String × String))
        → move_like_mutation_action action ≡ true
        → manifest_ids action payload (
            action_result_from_response r (
              reversible_mutation_response h
                (record { succeeded = done; mutation_manifest_ids = ids; failed = failed })))
          ≡ listed ids
    unfolding manifest_ids manifest_ids_from_data_key manifest_ids_from_value
        reversible_mutation_response batch_fields Redact.value Redact.should_redact_key contains_one
        contains has_prefix to_lower lookup_field action_result_from_response
    moved_manifest action payload [] done [] e = rw e refl
    moved_manifest action payload [] done (f ∷ failed) e = rw e refl
    moved_manifest action payload (id ∷ ids) done [] e = refl
    moved_manifest action payload (id ∷ ids) done (f ∷ failed) e = refl

    patched_manifest :
        (action : String) (payload : Fields) (done : List String) (failed : List (String × String))
        → move_like_mutation_action action ≡ false
        → manifest_ids action payload (
            action_result_from_response r (
              reversible_mutation_response h
                (record { succeeded = done; mutation_manifest_ids = []; failed = failed })))
          ≡ patched_list done (map failed_id failed)
    unfolding manifest_ids manifest_ids_from_data_key manifest_ids_from_value
        reversible_mutation_response batch_fields Redact.value Redact.should_redact_key contains_one
        contains has_prefix to_lower lookup_field action_result_from_response
    patched_manifest action payload [] [] e = rw e refl
    patched_manifest action payload [] (f ∷ failed) e = rw e refl
    patched_manifest action payload (id ∷ done) [] e = rw e refl
    patched_manifest action payload (id ∷ done) (f ∷ failed) e = rw e refl

    -- the ids that the server lists in the manifest of a batch
    abbrev pub drawn : String → Fields → BulkMoveResult → Option (List String)
    drawn action payload b =
        manifest_ids action payload
          (action_result_from_response r (reversible_mutation_response h b))

    drawn_of_patch :
        (action : String) (payload : Fields) (b : BulkMoveResult)
        → move_like_mutation_action action ≡ false
        → b.mutation_manifest_ids ≡ []
        → drawn action payload b ≡ patched_list b.succeeded (map failed_id b.failed)
    drawn_of_patch action payload b e none_new =
        subst
          (λ ids.
            drawn action payload (record b { mutation_manifest_ids = ids })
            ≡ patched_list b.succeeded (map failed_id b.failed))
          (sym none_new) (patched_manifest action payload b.succeeded b.failed e)

    -- The manifest that the server draws from the answer to a batch, after redaction, lists what the
    -- batch changed. Graph is asked about each id once and in order, and nothing where a move has no
    -- destination. For a move or an archiving the manifest lists the ids that Graph's answers report
    -- for the moved messages, less the blank ones, and there is none if none are left; for a change
    -- in place it lists the ids that succeeded, and there is none if there were ids and all failed.
    pub manifest_lists_changed :
        (action : String) (payload : Fields) (mailbox : String) (ids : List String)
        (destination : String) (change : Fields) (w : h.World)
        → let moved = move_messages h mailbox ids destination w in
          let patched = patch_messages h mailbox ids change w in
          let moves = move_like_mutation_action action in
          (done : List String) × (news : List String) × (missed : List String) × Ran
            (if moves then move_one h mailbox destination else patch_one h mailbox change)
            ids
            w
            done
            news
            missed
            (if moves then moved else patched).1
          × (drawn action payload (if moves then moved else patched).0
              ≡ (if moves then listed news else patched_list done missed))
    manifest_lists_changed action payload mailbox ids destination change w =
        elim (Bool-cases (move_like_mutation_action action)) [
          | inl e ↦
              let b = (move_messages h mailbox ids destination w).0 in
              let (done, news, missed, ran, kept) =
                move_messages-HasRun h mailbox ids destination w in
              rw e (
                done,
                news,
                missed,
                ran,
                moved_manifest action payload b.mutation_manifest_ids b.succeeded b.failed e
                    ∙ ap listed kept.1,
              )
          | inr e ↦
              let b = (patch_messages h mailbox ids change w).0 in
              let (done, news, missed, ran, kept) = patch_messages-HasRun h mailbox ids change w in
              rw e (
                done,
                news,
                missed,
                ran,
                drawn_of_patch action payload b e kept.1
                    ∙ ap (λ xs. patched_list xs (map failed_id b.failed)) kept.0
                    ∙ ap (λ xs. patched_list done xs) kept.2,
              )
        ]
