-- ===== src/Tests.antt =====
-- The theorems and the parsers at concrete inputs.
mod Texts
mod Council
mod Reviews
mod Store
mod Rounds
mod Events
mod Actions
mod Sessions
mod Outbox
mod Installations
