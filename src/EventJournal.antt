-- ===== src/EventJournal.antt =====
-- src/deepkeel/event_journal.py: the journal of a run's events, with cursors for replay.
pub mod Journal
pub mod Ordered
pub mod Redelivery
pub mod Cursor
mod Examples
