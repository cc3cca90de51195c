-- ===== src/Graph/Runs.antt =====
-- What the requests of a batch answer, one after the other, and what the batch keeps of it.
use outlook_agent.Prelude.{
  Bool, Bool-cases, List, Result, Result-cases, String, [], ap, err, false, if◌then◌else◌, inl, inr,
  map, ok, refl, subst, sym, true, ◌++◌, ◌∙◌, ◌∷◌, ◌≡◌,
}
use mathlib.Core.List.{append-nil, append_assoc, map-append}
use outlook_agent.Prelude.Text.{is_blank}
use outlook_agent.Value.{Fields}
use outlook_agent.Graph.Messages.{
  BulkMoveResult, Host, empty_result, fail_all, for_each, move_messages, noted, patch_messages,
  with_failure, with_moved, with_patched,
}

-- The requests for these ids, one each and in order: the ids that succeed, the ids that their answers
-- report where these are not blank, and the ids that fail.
pub data Ran {World : Type 0} (run : String → World → Result String String × World)
    : List String → World → List String → List String → List String → World → Type 0 where
  nothing : (w : World) → Ran run [] w [] [] [] w
  reported :
      {ids done news missed : List String} {v : World} (id new_id : String) (w : World)
      → (run id w).0 ≡ ok new_id
      → is_blank new_id ≡ false
      → Ran run ids (run id w).1 done news missed v
      → Ran run (id ∷ ids) w (id ∷ done) (new_id ∷ news) missed v
  unreported :
      {ids done news missed : List String} {v : World} (id new_id : String) (w : World)
      → (run id w).0 ≡ ok new_id
      → is_blank new_id ≡ true
      → Ran run ids (run id w).1 done news missed v
      → Ran run (id ∷ ids) w (id ∷ done) news missed v
  refused :
      {ids done news missed : List String} {v : World} (id message : String) (w : World)
      → (run id w).0 ≡ err message
      → Ran run ids (run id w).1 done news missed v
      → Ran run (id ∷ ids) w done news (id ∷ missed) v

abbrev pub failed_id : String × String → String
failed_id f = f.0

-- A move lists the new ids, a change in place does not.
abbrev pub note_of : Bool → String → String → BulkMoveResult → BulkMoveResult
note_of true = with_moved
note_of false = with_patched

abbrev pub listed_of : Bool → List String → List String
listed_of true news = news
listed_of false news = []

-- a batch after such requests, from `a` to `b`
abbrev pub Keeps :
    Bool → BulkMoveResult → List String → List String → List String → BulkMoveResult → Type 0
Keeps moves a done news missed b =
    (b.succeeded ≡ a.succeeded ++ done)
    × (b.mutation_manifest_ids ≡ a.mutation_manifest_ids ++ listed_of moves news)
    × (map failed_id b.failed ≡ map failed_id a.failed ++ missed)

abbrev pub HasRun :
    {World : Type 0}
    → Bool
    → (String → World → Result String String × World)
    → List String
    → World
    → BulkMoveResult
    → BulkMoveResult × World
    → Type 0
HasRun moves run ids w a p =
    (done : List String) × (news : List String) × (missed : List String) × Ran run ids w done news
      missed p.1
    × Keeps moves a done news missed p.0

nothing-Keeps : (moves : Bool) (a : BulkMoveResult) → Keeps moves a [] [] [] a
nothing-Keeps true a = (
  sym (append-nil a.succeeded),
  sym (append-nil a.mutation_manifest_ids),
  sym (append-nil (map failed_id a.failed)),
)
nothing-Keeps false a = (
  sym (append-nil a.succeeded),
  sym (append-nil a.mutation_manifest_ids),
  sym (append-nil (map failed_id a.failed)),
)

refused_first :
    (moves : Bool) (id message : String) (a b : BulkMoveResult) (done news missed : List String)
    → Keeps moves (with_failure id message a) done news missed b
    → Keeps moves a done news (id ∷ missed) b
refused_first moves id message a b done news missed (s, m, f) = (
  s,
  m,
  f
      ∙ ap (λ xs. xs ++ missed) (map-append failed_id a.failed ((id, message) ∷ []))
      ∙ append_assoc (map failed_id a.failed) (id ∷ []) missed,
)

reported_first :
    (moves : Bool) (id new_id : String) (a b : BulkMoveResult) (done news missed : List String)
    → is_blank new_id ≡ false
    → Keeps moves (note_of moves id new_id a) done news missed b
    → Keeps moves a (id ∷ done) (new_id ∷ news) missed b
reported_first true id new_id a b done news missed e (s, m, f) = (
  s ∙ append_assoc a.succeeded (id ∷ []) done,
  m ∙ rw e (append_assoc a.mutation_manifest_ids (new_id ∷ []) news),
  f,
)
reported_first false id new_id a b done news missed e (s, m, f) =
    (s ∙ append_assoc a.succeeded (id ∷ []) done, m, f)

unreported_first :
    (moves : Bool) (id new_id : String) (a b : BulkMoveResult) (done news missed : List String)
    → is_blank new_id ≡ true
    → Keeps moves (note_of moves id new_id a) done news missed b
    → Keeps moves a (id ∷ done) news missed b
unreported_first true id new_id a b done news missed e (s, m, f) =
    (s ∙ append_assoc a.succeeded (id ∷ []) done, m ∙ rw e refl, f)
unreported_first false id new_id a b done news missed e (s, m, f) =
    (s ∙ append_assoc a.succeeded (id ∷ []) done, m, f)

module _ (h : Host) (moves : Bool) where
  -- one request, in front of the others
  first-HasRun :
      (run : String → h.World → Result String String × h.World) (id : String) (ids : List String)
      (a : BulkMoveResult) (w : h.World) (p : BulkMoveResult × h.World)
      → HasRun moves run ids (run id w).1 (noted (note_of moves) id (run id w).0 a) p
      → HasRun moves run (id ∷ ids) w a p
  first-HasRun run id ids a w p k = elim (Result-cases (run id w).0) [
    | inl (new_id, e) ↦
        let kept = subst (λ x. Keeps moves (noted (note_of moves) id x a) k.0 k.1 k.2 p.0) e k.4 in
        elim (Bool-cases (is_blank new_id)) [
          | inl b ↦ (
            id ∷ k.0,
            k.1,
            k.2,
            unreported id new_id w e b k.3,
            unreported_first moves id new_id a p.0 k.0 k.1 k.2 b kept,
          )
          | inr b ↦ (
            id ∷ k.0,
            new_id ∷ k.1,
            k.2,
            reported id new_id w e b k.3,
            reported_first moves id new_id a p.0 k.0 k.1 k.2 b kept,
          )
        ]
    | inr (message, e) ↦ (
      k.0,
      k.1,
      id ∷ k.2,
      refused id message w e k.3,
      refused_first moves id message a p.0 k.0 k.1 k.2
          (subst (λ x. Keeps moves (noted (note_of moves) id x a) k.0 k.1 k.2 p.0) e k.4),
    )
  ]

  for_each-HasRun :
      (run : String → h.World → Result String String × h.World) (ids : List String)
      (a : BulkMoveResult) (w : h.World)
      → HasRun moves run ids w a (for_each h run (note_of moves) ids (a, w))
  unfolding for_each
  for_each-HasRun run [] a w = ([], [], [], nothing w, nothing-Keeps moves a)
  for_each-HasRun run (id ∷ ids) a w =
      first-HasRun run id ids a w (for_each h run (note_of moves) (id ∷ ids) (a, w))
        (for_each-HasRun run ids (noted (note_of moves) id (run id w).0 a) (run id w).1)

  fail_all-HasRun :
      (message : String) (ids : List String) (a : BulkMoveResult) (w : h.World)
      → HasRun moves (λ id v. (err message, v)) ids w a (fail_all message ids a, w)
  unfolding fail_all
  fail_all-HasRun message [] a w = ([], [], [], nothing w, nothing-Keeps moves a)
  fail_all-HasRun message (id ∷ ids) a w =
      first-HasRun (λ id v. (err message, v)) id ids a w (fail_all message (id ∷ ids) a, w)
        (fail_all-HasRun message ids (with_failure id message a) w)

module _ (h : Host) where
  abbrev pub move_by : Bool → String → String → String → h.World → Result String String × h.World
  move_by true mailbox destination id w = (err "destination folder id is required", w)
  move_by false mailbox destination id w = h.move mailbox id destination w

  -- what is asked of Graph for one id of a move, which is nothing without a destination
  abbrev pub move_one : String → String → String → h.World → Result String String × h.World
  move_one mailbox destination = move_by (is_blank destination) mailbox destination

  abbrev pub patch_one : String → Fields → String → h.World → Result String String × h.World
  patch_one mailbox change id w = h.patch mailbox id change w

  move_by-HasRun :
      (blank : Bool) (mailbox : String) (ids : List String) (destination : String) (w : h.World)
      → HasRun true (move_by blank mailbox destination) ids w empty_result (
          if blank
          then (fail_all "destination folder id is required" ids empty_result, w)
          else for_each h (λ id. h.move mailbox id destination) with_moved ids (empty_result, w))
  move_by-HasRun true mailbox ids destination w =
      fail_all-HasRun h true "destination folder id is required" ids empty_result w
  move_by-HasRun false mailbox ids destination w =
      for_each-HasRun h true (λ id. h.move mailbox id destination) ids empty_result w

  pub move_messages-HasRun :
      (mailbox : String) (ids : List String) (destination : String) (w : h.World)
      → HasRun true
          (move_one mailbox destination)
          ids
          w
          empty_result
          (move_messages h mailbox ids destination w)
  unfolding move_messages
  move_messages-HasRun mailbox ids destination w =
      move_by-HasRun (is_blank destination) mailbox ids destination w

  pub patch_messages-HasRun :
      (mailbox : String) (ids : List String) (change : Fields) (w : h.World)
      → HasRun false
          (patch_one mailbox change)
          ids
          w
          empty_result
          (patch_messages h mailbox ids change w)
  unfolding patch_messages
  patch_messages-HasRun mailbox ids change w =
      for_each-HasRun h false (λ id. h.patch mailbox id change) ids empty_result w
