-- ===== src/Kernel.antt =====
-- packages/kernel/src: the value objects and the error vocabulary that every module shares.
pub mod Result
pub mod Caller
pub mod Throws
pub mod Aggregate
pub mod Money
pub mod Duration
pub mod Rate
pub mod Tests
