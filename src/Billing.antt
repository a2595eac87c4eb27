-- ===== src/Billing.antt =====
-- packages/modules/billing/domain: what was offered, what was worked, and what was billed.
pub mod Invoice
pub mod Quotation
pub mod Statement
pub mod Store
pub mod Generate
pub mod Raise
pub mod Release
pub mod Sweep
pub mod Tests
