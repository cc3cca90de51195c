-- ===== src/Graph.antt =====
-- internal/transport/graph/transport.go: the batches of reversible mutations (Messages, with the
-- helpers that read a payload in Payload), the checks of next links (Links), the paginated reads
-- (Pages), the bearer token (Token) and the headers of raw requests (RawRequest). Runs describes
-- the answers to a batch; Single and Manifests hold what the server may rely on.
pub mod Payload
pub mod Messages
pub mod Single
pub mod Runs
pub mod Manifests
pub mod Links
pub mod Pages
pub mod Token
pub mod Reviews
pub mod RawRequest
