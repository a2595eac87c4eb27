-- ===== src/Projects.antt =====
-- The services that the practice sells, and the projects in which it does the work.
pub mod Template
pub mod Project
pub mod Recurrence
pub mod Tests
