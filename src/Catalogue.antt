-- ===== src/Catalogue.antt =====
-- The actions that each transport announces, with their safety classes: Capabilities of
-- internal/transport/graph/transport.go and internal/transport/ews/transport.go, the tables of
-- internal/transport/owa/capabilities.go, and the test double of internal/transport/fake/fake.go.
pub mod Classes
use outlook_agent.Prelude.{List, String, [], ◌++◌, ◌∷◌}
use outlook_agent.Policy.{
  SafetyClass, destructive, draft_only, read_attachment_explicit, read_body_explicit, read_metadata,
  reversible_bulk, send_like, settings_or_rules, unknown,
}
use outlook_agent.Action.{CoverageLevel, Definition, high_level_mcp_tool, raw_guarded_execution}

abbrev pub entry : CoverageLevel → String → String → SafetyClass → Definition
entry level transport name class = record {
  name = name;
  transport = transport;
  description = "";
  class = class;
  level = level;
}

-- raw of internal/transport/owa/capabilities.go
abbrev pub raw : String → SafetyClass → Definition
raw name class = entry raw_guarded_execution "owa" name class

-- rawRead
abbrev pub raw_read : String → Definition
raw_read name = raw name read_metadata

-- Transport.Capabilities of the Graph transport
abbrev pub graph_capabilities : List Definition
graph_capabilities =
    entry raw_guarded_execution "graph" "GetMailFolder" read_metadata
    ∷ entry raw_guarded_execution "graph" "GraphRequest" destructive
    ∷ entry high_level_mcp_tool "graph" "mail.search" read_metadata
    ∷ entry high_level_mcp_tool "graph" "mail.search_next" read_metadata
    ∷ entry high_level_mcp_tool "graph" "mail.fetch_metadata" read_metadata
    ∷ entry high_level_mcp_tool "graph" "mail.fetch_body" read_body_explicit
    ∷ entry high_level_mcp_tool "graph" "mail.list_attachments" read_attachment_explicit
    ∷ entry high_level_mcp_tool "graph" "mail.fetch_attachment" read_attachment_explicit
    ∷ entry high_level_mcp_tool "graph" "mail.create_draft" draft_only
    ∷ entry high_level_mcp_tool "graph" "mail.send_draft" send_like
    ∷ entry high_level_mcp_tool "graph" "mail.create_reply_draft" draft_only
    ∷ entry high_level_mcp_tool "graph" "mail.create_reply_all_draft" draft_only
    ∷ entry high_level_mcp_tool "graph" "mail.create_forward_draft" draft_only
    ∷ entry high_level_mcp_tool "graph" "mail.move_to_deleted_items" reversible_bulk
    ∷ entry high_level_mcp_tool "graph" "mail.move_to_folder" reversible_bulk
    ∷ entry high_level_mcp_tool "graph" "mail.archive" reversible_bulk
    ∷ entry high_level_mcp_tool "graph" "mail.flag" reversible_bulk
    ∷ entry high_level_mcp_tool "graph" "mail.categorize" reversible_bulk
    ∷ entry high_level_mcp_tool "graph" "mail.mark_read" reversible_bulk
    ∷ entry high_level_mcp_tool "graph" "mail.rules.list" read_metadata
    ∷ entry high_level_mcp_tool "graph" "mail.rules.set_enabled" settings_or_rules
    ∷ entry high_level_mcp_tool "graph" "mailbox.settings.get" read_metadata
    ∷ entry high_level_mcp_tool "graph" "people.search" read_metadata
    ∷ entry high_level_mcp_tool "graph" "people.resolve" read_metadata
    ∷ entry high_level_mcp_tool "graph" "calendar.list" read_metadata
    ∷ entry high_level_mcp_tool "graph" "calendar.availability" read_metadata
    ∷ entry high_level_mcp_tool "graph" "calendar.find_time" read_metadata
    ∷ entry high_level_mcp_tool "graph" "calendar.respond" send_like
    ∷ entry high_level_mcp_tool "graph" "calendar.create_meeting" send_like
    ∷ []

-- Transport.Capabilities of the EWS transport
abbrev pub ews_capabilities : List Definition
ews_capabilities =
    entry raw_guarded_execution "ews" "GetFolder" read_metadata
    ∷ entry high_level_mcp_tool "ews" "mail.search" read_metadata
    ∷ entry high_level_mcp_tool "ews" "mail.fetch_metadata" read_metadata
    ∷ entry high_level_mcp_tool "ews" "mail.fetch_body" read_body_explicit
    ∷ entry high_level_mcp_tool "ews" "calendar.list" read_metadata
    ∷ entry high_level_mcp_tool "ews" "calendar.availability" read_metadata
    ∷ entry raw_guarded_execution "ews" "EWSRequest" destructive
    ∷ []

-- highLevelCapabilities
abbrev pub high_level_capabilities : List Definition
high_level_capabilities =
    entry high_level_mcp_tool "owa" "mail.search" read_metadata
    ∷ entry high_level_mcp_tool "owa" "mail.fetch_metadata" read_metadata
    ∷ entry high_level_mcp_tool "owa" "mail.fetch_body" read_body_explicit
    ∷ entry high_level_mcp_tool "owa" "mail.list_attachments" read_attachment_explicit
    ∷ entry high_level_mcp_tool "owa" "mail.fetch_attachment" read_attachment_explicit
    ∷ entry high_level_mcp_tool "owa" "mail.create_draft" draft_only
    ∷ entry high_level_mcp_tool "owa" "mail.move_to_folder" reversible_bulk
    ∷ entry high_level_mcp_tool "owa" "mail.archive" reversible_bulk
    ∷ entry high_level_mcp_tool "owa" "mail.move_to_deleted_items" reversible_bulk
    ∷ entry high_level_mcp_tool "owa" "people.search" read_metadata
    ∷ entry high_level_mcp_tool "owa" "people.resolve" read_metadata
    ∷ entry high_level_mcp_tool "owa" "calendar.list" read_metadata
    ∷ entry high_level_mcp_tool "owa" "calendar.availability" read_metadata
    ∷ entry high_level_mcp_tool "owa" "calendar.find_time" read_metadata
    ∷ entry high_level_mcp_tool "owa" "calendar.create_meeting" send_like
    ∷ entry high_level_mcp_tool "owa" "calendar.cancel_meeting" send_like
    ∷ entry high_level_mcp_tool "owa" "calendar.delete_event" reversible_bulk
    ∷ []

-- rawServiceCapabilities
abbrev pub raw_service_capabilities : List Definition
raw_service_capabilities =
    raw_read "ConvertId"
    ∷ raw_read "ExpandDL"
    ∷ raw_read "FindConversation"
    ∷ raw_read "FindFolder"
    ∷ raw_read "FindItem"
    ∷ raw_read "FindPeople"
    ∷ raw_read "GetCalendarView"
    ∷ raw_read "GetConversationItems"
    ∷ raw_read "GetFolder"
    ∷ raw_read "GetMailTips"
    ∷ raw_read "GetPersona"
    ∷ raw_read "GetReminders"
    ∷ raw_read "GetRoomLists"
    ∷ raw_read "GetRooms"
    ∷ raw_read "GetServerTimeZones"
    ∷ raw_read "GetServiceConfiguration"
    ∷ raw_read "GetSharingFolder"
    ∷ raw_read "GetSharingMetadata"
    ∷ raw_read "GetUserAvailability"
    ∷ raw_read "GetUserAvailabilityInternal"
    ∷ raw_read "GetUserPhoto"
    ∷ raw_read "GetUserRetentionPolicyTags"
    ∷ raw_read "ResolveNames"
    ∷ raw_read "SyncFolderHierarchy"
    ∷ raw_read "SyncFolderItems"
    ∷ raw "GetAttachment" read_attachment_explicit
    ∷ raw "GetItem" read_body_explicit
    ∷ raw "NotificationSubscribe" settings_or_rules
    ∷ raw "SearchMailboxes" unknown
    ∷ raw "ArchiveItem" reversible_bulk
    ∷ raw "CopyFolder" reversible_bulk
    ∷ raw "CopyItem" reversible_bulk
    ∷ raw "CreateAttachment" reversible_bulk
    ∷ raw "CreateFolder" settings_or_rules
    ∷ raw "CreateFolderPath" settings_or_rules
    ∷ raw "MarkAllItemsAsRead" reversible_bulk
    ∷ raw "MarkAsJunk" reversible_bulk
    ∷ raw "MoveFolder" reversible_bulk
    ∷ raw "MoveItem" reversible_bulk
    ∷ raw "PerformReminderAction" reversible_bulk
    ∷ raw "CreateItem" send_like
    ∷ raw "SendItem" send_like
    ∷ raw "ApplyBulkItemAction" destructive
    ∷ raw "ApplyConversationAction" destructive
    ∷ raw "ApplyMessageAction" destructive
    ∷ raw "DeleteAttachment" destructive
    ∷ raw "DeleteFolder" destructive
    ∷ raw "DeleteItem" destructive
    ∷ raw "EmptyFolder" destructive
    ∷ raw "CreateSweepRuleForSender" settings_or_rules
    ∷ raw "GetInboxRules" settings_or_rules
    ∷ raw "GetUserOofSettings" settings_or_rules
    ∷ raw "UpdateFolder" settings_or_rules
    ∷ raw "UpdateItem" settings_or_rules
    ∷ raw "UpdateUserConfiguration" settings_or_rules
    ∷ []

-- Transport.Capabilities of the OWA transport
abbrev pub owa_capabilities : List Definition
owa_capabilities = high_level_capabilities ++ raw_service_capabilities

-- the actions of the test double
abbrev pub fake_actions : List Definition
fake_actions =
    entry high_level_mcp_tool "fake" "mail.search" read_metadata
    ∷ entry high_level_mcp_tool "fake" "mail.fetch_metadata" read_metadata
    ∷ entry high_level_mcp_tool "fake" "mail.fetch_body" read_body_explicit
    ∷ entry high_level_mcp_tool "fake" "mail.list_attachments" read_attachment_explicit
    ∷ entry high_level_mcp_tool "fake" "mail.fetch_attachment" read_attachment_explicit
    ∷ entry high_level_mcp_tool "fake" "mail.create_draft" draft_only
    ∷ entry high_level_mcp_tool "fake" "mail.send_draft" send_like
    ∷ entry high_level_mcp_tool "fake" "mail.create_reply_draft" draft_only
    ∷ entry high_level_mcp_tool "fake" "mail.create_reply_all_draft" draft_only
    ∷ entry high_level_mcp_tool "fake" "mail.create_forward_draft" draft_only
    ∷ entry high_level_mcp_tool "fake" "mail.move_to_deleted_items" reversible_bulk
    ∷ entry high_level_mcp_tool "fake" "mail.move_to_folder" reversible_bulk
    ∷ entry high_level_mcp_tool "fake" "mail.archive" reversible_bulk
    ∷ entry high_level_mcp_tool "fake" "mail.flag" reversible_bulk
    ∷ entry high_level_mcp_tool "fake" "mail.categorize" reversible_bulk
    ∷ entry high_level_mcp_tool "fake" "mail.mark_read" reversible_bulk
    ∷ entry high_level_mcp_tool "fake" "mail.rules.list" read_metadata
    ∷ entry high_level_mcp_tool "fake" "mail.rules.set_enabled" settings_or_rules
    ∷ entry high_level_mcp_tool "fake" "mailbox.settings.get" read_metadata
    ∷ entry high_level_mcp_tool "fake" "people.search" read_metadata
    ∷ entry high_level_mcp_tool "fake" "people.resolve" read_metadata
    ∷ entry high_level_mcp_tool "fake" "calendar.list" read_metadata
    ∷ entry high_level_mcp_tool "fake" "calendar.availability" read_metadata
    ∷ entry high_level_mcp_tool "fake" "calendar.find_time" read_metadata
    ∷ entry high_level_mcp_tool "fake" "calendar.respond" send_like
    ∷ entry high_level_mcp_tool "fake" "calendar.create_meeting" send_like
    ∷ entry high_level_mcp_tool "fake" "calendar.delete_event" reversible_bulk
    ∷ entry high_level_mcp_tool "fake" "calendar.cancel_meeting" send_like
    ∷ []
