-- ===== src/Graph/Messages.antt =====
-- The batches of mutations in internal/transport/graph/transport.go: moveMessages, patchMessages, and
-- the cases of Execute that use them. A request is a parameter: its URL, its body, its answer.
use outlook_agent.Prelude.{
  Bool, List, Option, Result, String, [], err, false, if◌then◌else◌, length, none, ok, some, true,
  ℕ, ◌++ˢ◌, ◌++◌, ◌==◌, ◌∷◌,
}
use outlook_agent.Prelude.Text.{is_blank, trim_space}
use outlook_agent.Value.{
  Fields, Items, Value, array, bool, cons, end, field, get_field, lookup_field, nil, number, maps,
  object, strings, text,
}
use outlook_agent.Server.{ActionResponse}
use outlook_agent.Graph.Payload.{
  bool_value, mailbox_target, message_ids, normalize_flag_status, string_slice, string_value,
}

pub record Host : Type 1 where
  pub World : Type 0
  -- messageMoveURL and doJSON: the mailbox, the id and the destination; the moved message's id
  pub move : String → String → String → World → Result String String × World
  -- messagePatchURL and doJSON: the mailbox, the id and the change
  pub patch : String → String → Fields → World → Result String String × World
  -- fmt's %q
  pub quote : String → String
  -- a count as JSON
  pub decimal : ℕ → String

-- bulkMoveResult; a failure is an id and its error
pub record BulkMoveResult : Type 0 where
  pub succeeded : List String
  pub mutation_manifest_ids : List String
  pub failed : List (String × String)

abbrev pub empty_result : BulkMoveResult
empty_result = record { succeeded = []; mutation_manifest_ids = []; failed = [] }

abbrev pub with_failure : String → String → BulkMoveResult → BulkMoveResult
with_failure id message r = record r { failed = r.failed ++ (id, message) ∷ [] }

-- an id moved: the new id is listed unless it is blank
abbrev pub with_moved : String → String → BulkMoveResult → BulkMoveResult
with_moved id new_id r = record r {
  succeeded = r.succeeded ++ id ∷ [];
  mutation_manifest_ids =
      if is_blank new_id then r.mutation_manifest_ids else r.mutation_manifest_ids ++ new_id ∷ [];
}

abbrev pub with_patched : String → String → BulkMoveResult → BulkMoveResult
with_patched id new_id r = record r { succeeded = r.succeeded ++ id ∷ [] }

-- every id fails alike
unfoldable pub fail_all : String → List String → BulkMoveResult → BulkMoveResult
fail_all message [] r = r
fail_all message (id ∷ ids) r = fail_all message ids (with_failure id message r)

unfoldable pub failed_items : List (String × String) → Items
failed_items [] = nil
failed_items ((id, message) ∷ rest) =
    cons (object (field "id" (text id) (field "error" (text message) end))) (failed_items rest)

abbrev pub with_manifest_ids : List String → Fields → Fields
with_manifest_ids [] fs = fs
with_manifest_ids (id ∷ ids) fs = field "mutation_manifest_ids" (strings (id ∷ ids)) fs

abbrev pub verdict : String → Fields → List (String × String) → ActionResponse
verdict message fs [] = record { ok = true; fields = some fs; error = "" }
verdict message fs (f ∷ rest) = record { ok = false; fields = some fs; error = message }

abbrev pub refused : String → ActionResponse
refused message = record { ok = false; fields = none; error = message }

abbrev pub noted :
    (String → String → BulkMoveResult → BulkMoveResult)
    → String
    → Result String String
    → BulkMoveResult
    → BulkMoveResult
noted note id (ok new_id) r = note id new_id r
noted note id (err message) r = with_failure id message r

module _ (h : Host) where
  module _ (run : String → h.World → Result String String × h.World)
      (note : String → String → BulkMoveResult → BulkMoveResult) where
    -- the loop over the ids
    unfoldable pub for_each : List String → BulkMoveResult × h.World → BulkMoveResult × h.World
    for_each [] p = p
    for_each (id ∷ ids) (r, w) =
        let (result, w') = run id w in for_each ids (noted note id result r, w')

  unfoldable pub move_messages : String → List String → String → h.World → BulkMoveResult × h.World
  unfolding for_each fail_all
  move_messages mailbox ids destination w =
      if is_blank destination
      then (fail_all "destination folder id is required" ids empty_result, w)
      else for_each (λ id. h.move mailbox id destination) with_moved ids (empty_result, w)

  unfoldable pub patch_messages : String → List String → Fields → h.World → BulkMoveResult × h.World
  unfolding for_each
  patch_messages mailbox ids change w =
      for_each (λ id. h.patch mailbox id change) with_patched ids (empty_result, w)

  -- the data of a batch: its count under that key, and the ids
  unfoldable pub batch_fields : String → BulkMoveResult → Fields
  unfolding failed_items
  batch_fields counted r = with_manifest_ids r.mutation_manifest_ids (
      field counted (number (h.decimal (length r.succeeded))) (
        field "reversible" (bool true) (
          field "succeeded" (strings r.succeeded)
            (field "failed" (maps (failed_items r.failed)) end))))

  -- reversibleMutationResponse
  unfoldable pub reversible_mutation_response : BulkMoveResult → ActionResponse
  unfolding batch_fields
  reversible_mutation_response r =
      verdict "some messages failed to update" (batch_fields "updated_count" r) r.failed

  abbrev responded : BulkMoveResult × h.World → ActionResponse × h.World
  responded (r, w) = (reversible_mutation_response r, w)

  abbrev deleted : BulkMoveResult × h.World → ActionResponse × h.World
  deleted (r, w) = (
    verdict "some messages failed to move to Deleted Items" (batch_fields "moved_count" r) r.failed,
    w,
  )

  abbrev deleted_ids : String → List String → h.World → ActionResponse × h.World
  deleted_ids mailbox [] w = (refused "mail.move_to_deleted_items requires ids", w)
  deleted_ids mailbox (id ∷ ids) w = deleted (move_messages mailbox (id ∷ ids) "deleteditems" w)

  unfoldable pub move_to_deleted_items : Fields → h.World → ActionResponse × h.World
  unfolding move_messages batch_fields
  move_to_deleted_items payload w =
      deleted_ids (mailbox_target payload) (string_slice (get_field "ids" payload)) w

  abbrev moved_ids : String → List String → String → h.World → ActionResponse × h.World
  moved_ids mailbox [] folder w = (refused "mail.move_to_folder requires ids", w)
  moved_ids mailbox (id ∷ ids) folder w =
      if folder == ""
      then (refused "mail.move_to_folder requires folder_id", w)
      else responded (move_messages mailbox (id ∷ ids) folder w)

  unfoldable pub move_to_folder : Fields → h.World → ActionResponse × h.World
  unfolding move_messages reversible_mutation_response
  move_to_folder payload w =
      moved_ids (mailbox_target payload) (message_ids payload)
        (trim_space (string_value payload "folder_id" "")) w

  abbrev archived_ids : String → List String → h.World → ActionResponse × h.World
  archived_ids mailbox [] w = (refused "mail.archive requires ids", w)
  archived_ids mailbox (id ∷ ids) w = responded (move_messages mailbox (id ∷ ids) "archive" w)

  unfoldable pub archive : Fields → h.World → ActionResponse × h.World
  unfolding move_messages reversible_mutation_response
  archive payload w = archived_ids (mailbox_target payload) (message_ids payload) w

  -- the change to the ids, or what is missing
  abbrev patched_ids :
      String → String → List String → Result String Fields → h.World → ActionResponse × h.World
  patched_ids action mailbox [] change w = (refused action, w)
  patched_ids action mailbox (id ∷ ids) (err message) w = (refused message, w)
  patched_ids action mailbox (id ∷ ids) (ok change) w =
      responded (patch_messages mailbox (id ∷ ids) change w)

  abbrev flag_change : String → Option String → Result String Fields
  flag_change value none = err ("unsupported flag_status " ++ˢ h.quote value)
  flag_change value (some status) =
      ok (field "flag" (object (field "flagStatus" (text status) end)) end)

  unfoldable pub flag : Fields → h.World → ActionResponse × h.World
  unfolding patch_messages reversible_mutation_response normalize_flag_status
  flag payload w =
      let status = string_value payload "flag_status" "" in
      patched_ids "mail.flag requires ids" (mailbox_target payload) (message_ids payload)
        (flag_change status (normalize_flag_status status)) w

  abbrev text_items : List String → Items
  text_items [] = nil
  text_items (s ∷ rest) = cons (text s) (text_items rest)

  abbrev category_change : Option Value → Result String Fields
  category_change none = err "mail.categorize requires categories"
  category_change (some v) = ok (field "categories" (array (text_items (string_slice v))) end)

  unfoldable pub categorize : Fields → h.World → ActionResponse × h.World
  unfolding patch_messages reversible_mutation_response
  categorize payload w =
      patched_ids "mail.categorize requires ids" (mailbox_target payload) (message_ids payload)
        (category_change (lookup_field "categories" payload)) w

  abbrev read_change : Option Bool → Result String Fields
  read_change none = err "mail.mark_read requires is_read"
  read_change (some b) = ok (field "isRead" (bool b) end)

  unfoldable pub mark_read : Fields → h.World → ActionResponse × h.World
  unfolding patch_messages reversible_mutation_response bool_value
  mark_read payload w =
      patched_ids "mail.mark_read requires ids" (mailbox_target payload) (message_ids payload)
        (read_change (bool_value payload "is_read")) w
