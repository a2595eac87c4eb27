-- ===== src/Time.antt =====
-- packages/modules/time-tracking: who worked when.
pub mod Entry
pub mod WorkingHours
pub mod Service
pub mod Timer
