-- ===== src/Examples.antt =====
-- Concrete runs of the theorems, one file for each group of components.
mod Tokens
mod Cursors
mod Planning
mod Gateway
mod Reads
mod Sessions
mod Mailboxes
mod Previews
