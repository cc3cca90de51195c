-- ===== src/Lib.antt =====
-- outlook-agent: an MCP server that gives an agent guarded access to a mailbox. A tool call names an
-- action and a payload. The server classifies the action, asks the policy, has risky actions
-- reviewed by a dry run and confirmed with a one-time token, and, where the host requires it, with a
-- signed approval challenge, and only then hands the action to a transport. This library models the
-- parts that decide what is executed, and the stores that they keep.
--
-- Files and sources:
--   Policy        internal/policy/policy.go: SafetyClass, Evaluate, EvaluateConfirmed
--   Confirm       internal/confirm/confirm.go: one-time confirmation tokens; Generate, Consume
--   Approval      internal/approval/approval.go: modes, PolicyFromEnv, RequireApproval,
--                 BuildSigningPayload, SignChallenge, ValidateChallengeToken, the challenge store
--   Cursor        internal/cursor/cursor.go: pagination cursors; Issue, Consume, ConsumeScoped,
--                 PeekScoped, LeaseScoped, CommitLease, RollbackLease. Slots is the contract that its
--                 Refinement proves, with one slot for each cursor
--   Manifest      internal/manifest/manifest.go: Issue, Get
--   CalendarPlan  internal/calendarplan/calendarplan.go: FindSuggestions and what it calls
--   Action        internal/action/action.go: the registry of actions
--   Capability    internal/capability/detail.go: the routes that capabilities advertise
--   Server        internal/mcpserver/server.go: the runtime, and the data types of
--                 internal/transport/transport.go, internal/transport/review.go and
--                 internal/audit/audit.go that it uses
--     Targets     safetyClassForPayload, hasExplicitTargetForAction, requiresApprovalForClass
--     Canonical   canonicalActionPayload and actionPreflightRejection
--     Gate        dryRunReviewFor, reviewPacketFor, the two bindings, recordAudit,
--                 validateExternalApproval, consumeExternalApproval, and the run of token checks
--                 that the confirming handlers share
--     Execute     the execution with its audit, and attachMutationManifest
--     Handlers    actionConfirmHandler, rawActionHandler, executeConfirmedCalendarAction,
--                 mailSendDraftHandler, mailMoveToDeletedItemsHandler, mailRuleSetEnabledHandler,
--                 executeReversibleMessageMutation
--     Mutations   the handlers of the five reversible mutations
--     Calendar    the handlers that create, delete, cancel and answer a meeting
--     DryRun      dryRunHandler
--     Calls       the tools that can execute a change, or a raw action, as one function of the call
--     Reads       the handlers that hand over one request with no review: authCheckHandler, the
--                 fetches, the drafts, rules, settings, people and calendar lists
--     Search      mailSearchHandler and mailSearchNextHandler with the cursors that they issue;
--                 its Pages holds the proofs
--     Bodies      fetchBodies and its two handlers; its Counts holds the proofs
--     Capabilities  capabilitiesHandler and approvalInfo
--     Looks       the tools that ask no policy, as one function of the call, with its proofs
--     Tokens, Safety, Permits, RoundTrip, Replay, Refusals, Audits and Trail hold the proofs.
--   Redact        internal/redact/redact.go: Value and shouldRedactKey
--   Catalogue     the actions that the transports announce, with their classes:
--                 internal/transport/graph/transport.go, internal/transport/ews/transport.go,
--                 internal/transport/owa/capabilities.go, internal/transport/fake/fake.go
--   Owa           internal/transport/owa/transport.go: the cached session (Session: login,
--                 loginWithRetry, invalidateSession) and the calls of the service (Service:
--                 executeService, executeRawService)
--   Graph         internal/transport/graph/transport.go: the helpers that read payloads (Payload),
--                 the batches of moves and patches and the cases of Execute that use them
--                 (Messages), the dry runs of those cases (Reviews), the checks of next links
--                 (Links), the paginated reads (Pages), bearerToken (Token), the headers of raw
--                 requests (RawRequest); Runs describes the answers to a batch and Walks the pages read;
--                 Single and Manifests hold the proofs that join it to the server
--   Review        internal/transport/review.go: ClampTargetRefs, TruncatedPreview, RedactedPreview and
--                 stripSensitiveReviewFields
--   Url           internal/transport/redirect.go, internal/transport/url_validation.go, and the redirect
--                 policy of internal/transport/owa/transport.go. Redirects follows the requests of one call,
--                 which net/http makes in turn
--   Config        internal/config/config.go: containsInlineSecret and what it calls. Secrets says what
--                 a secret is and where it stands; Sound and Precise hold the proofs
--   Prelude, Table and Value hold what the parts share: Boolean tests, lists and strings, a Go map
--   as an association list, and Go's `any` as it comes out of encoding/json.
--   Examples      concrete runs
--
-- How state and operations correspond: a store is a record of its maps, and an operation is a
-- function from the store to the store and the result. Every operation of a store holds its mutex,
-- so that concurrent callers are a sequence of calls. The server's State holds the four stores, the
-- audit events, the requests given to Transport.Execute, in order and apart for the handlers that
-- ask the gate and those that do not, and the transport's own world.
-- The clock and the random source are streams in Runtime, read in the order of the code; a
-- random identifier may be absent, which is the source's error. A confirmation of an unknown token
-- advances the model's clock where the code does not read it.
--
-- Parameters: the transport (its name, capabilities, Authenticate, Execute and DryRun); JSON
-- encoding and its failure, SHA-256, HMAC, base64 and the time format; the regular expression of
-- redact.String, and those of previews; the fingerprints of payloads and reviews; for OWA the
-- clock, the secret store, Login, the HTTP round trip and the JSON decoder; for Graph one request
-- with its decoding; the parser of net/url, the canonical form of header names and the conversion
-- of JSON numbers to int. Nothing is assumed of them: where a result depends on two digests being
-- apart, or on header names that differ in case at most, it says so.
--
-- Bounds: times and durations are natural numbers of nanoseconds, so that a negative lifetime, which
-- no caller passes, is outside the model. The loop of FindSuggestions runs on fuel: one round more
-- than the length of the window, which is enough because the step is positive. The retries of a login
-- are recursion on the number of attempts left. Case folding covers
-- ASCII. The typed details of a review packet, which the server passes on unread, are one value.
--
-- Not modelled: the requests of the Graph, EWS and OWA transports and the parsing of their answers, the
-- other review packets that they build, page sizes and DurationFromMinutes (float conversions), secrets, the
-- command line and set-up (I/O).
pub mod Prelude
pub mod Table
pub mod Value
pub mod Redact
pub mod Catalogue
pub mod Owa
pub mod Graph
pub mod Url
pub mod Config
pub mod Review
pub mod Policy
pub mod Confirm
pub mod Cursor
pub mod CalendarPlan
pub mod Approval
pub mod Action
pub mod Capability
pub mod Server
pub mod Manifest
mod Examples
