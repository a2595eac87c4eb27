-- ===== src/Clients.antt =====
-- packages/modules/clients: what clients are charged, and how an enquiry becomes a client.
pub mod RateHistory
pub mod Lead
pub mod Client
pub mod ClientFile
pub mod TaxPeriod
pub mod LeadWorkflow
pub mod Tests
