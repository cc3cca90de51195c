-- ===== src/Server/Mutations.antt =====
-- The handlers of the reversible mail mutations: each builds a payload and hands it to a shared one.
use outlook_agent.Prelude.{Bool, List, Option, String, if◌then◌else◌, none, some}
use outlook_agent.Prelude.Text.{is_blank, trim_space}
use outlook_agent.Value.{Fields, array, bool, end, field, text}
use outlook_agent.Server.{Runtime, State}
use outlook_agent.Server.Gate.{Credentials}
use outlook_agent.Server.Execute.{ActionResult, failed}
use outlook_agent.Server.Canonical.{non_empty_strings}
use outlook_agent.Server.Handlers.{
  execute_reversible_message_mutation, strings_to_any, with_mailbox,
}

abbrev ids_field : List String → Fields → Fields
ids_field ids rest = field "ids" (array (strings_to_any ids)) rest

module _ (r : Runtime) (c : Credentials) where
  -- mailMoveToFolderHandler
  unfoldable pub move_to_folder : List String → String → String → State r → ActionResult × State r
  move_to_folder ids folder_id mailbox s =
      if is_blank folder_id
      then (failed "folder_id required", s)
      else execute_reversible_message_mutation r "mail.move_to_folder"
          (with_mailbox (ids_field ids (field "folder_id" (text (trim_space folder_id)) end))
            mailbox)
          c s

  -- mailArchiveHandler
  unfoldable pub archive : List String → String → State r → ActionResult × State r
  archive ids mailbox s =
      execute_reversible_message_mutation r "mail.archive"
        (with_mailbox (ids_field ids end) mailbox) c s

  -- mailFlagHandler
  unfoldable pub flag : List String → String → String → State r → ActionResult × State r
  flag ids flag_status mailbox s =
      if is_blank flag_status
      then (failed "flag_status required", s)
      else execute_reversible_message_mutation r "mail.flag"
          (with_mailbox (ids_field ids (field "flag_status" (text (trim_space flag_status)) end))
            mailbox)
          c s

  -- mailCategorizeHandler; a nil list of categories is `none`
  unfoldable pub categorize :
      List String → Option (List String) → String → State r → ActionResult × State r
  categorize ids none mailbox s = (failed "categories required", s)
  categorize ids (some categories) mailbox s =
      execute_reversible_message_mutation r "mail.categorize"
        (with_mailbox
          (ids_field ids
            (field "categories" (array (strings_to_any (non_empty_strings categories))) end))
          mailbox)
        c s

  -- mailMarkReadHandler
  unfoldable pub mark_read : List String → Option Bool → String → State r → ActionResult × State r
  mark_read ids none mailbox s = (failed "is_read required", s)
  mark_read ids (some is_read) mailbox s =
      execute_reversible_message_mutation r "mail.mark_read"
        (with_mailbox (ids_field ids (field "is_read" (bool is_read) end)) mailbox) c s
