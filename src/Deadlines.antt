-- ===== src/Deadlines.antt =====
-- packages/modules/deadlines/domain: the days on which the authority is open, and when things are due.
pub mod Calendar
pub mod Deadline
pub mod Tests
