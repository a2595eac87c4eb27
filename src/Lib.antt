-- ===== src/Lib.antt =====
-- The core of the practice management system AMC: exact money and time, the three documents of a bill
-- (the quotation, the statement of work, the invoice) and the use cases that make them, the timer and
-- the time entries that record work and the service that keeps them, working hours, projects and the sweep
-- that opens recurring work, the rates and tax periods of clients, enquiries, deadlines, people and the permissions of their roles, the session, and the conversations on WhatsApp.
--
-- How the parts interact: an invoice, a statement and a quotation are aggregates of the kernel, and
-- compute only through its Money, Duration and Rate. A timer's span becomes a time entry. A statement is
-- generated from the approved entries that are on no statement, and each of them then names its line; an
-- invoice is raised from an approved statement; releasing a statement frees its entries. The sweep asks the
-- client's cycles for the period that has closed and makes a project from the service's template.
--
-- The parts, and the files that model them:
--
-- - Base: names of the libraries, Boolean tests on numbers, lists measured by native numbers
--   (Base/Lists), integers (Base/Int), JavaScript's strings as lists of code units with `===` and `trim`
--   (Base/Text), decimal digits (Base/Digits), and calendar days of instants (Base/Date).
-- - Kernel: packages/kernel/src. Kernel/Result is result.ts. Kernel/Throws is what a function gives
--   that may throw a ProgrammerError of errors.ts. Kernel/Aggregate is aggregate-root.ts and how a
--   method of an aggregate runs: it reads and assigns the state, records events, returns a Result, or
--   throws, and an exception leaves what was assigned before it in place. Kernel/Money is money.ts,
--   with proofs in Money/Rounding (divideRoundingHalfAwayFromZero, scaleByRatio,
--   percentageInBasisPoints), Money/Sums (add, subtract, compare, sum) and Money/Allocation
--   (allocate). Money/Major is `ofMajor` of a text and `toMajorString`, with proofs in
--   Major/RoundTrip. Kernel/Caller is caller.ts. Kernel/Duration is duration.ts, with proofs in Duration/Between. Kernel/Rate is
--   rate.ts.
-- - Billing/Quotation: packages/modules/billing/domain/quotation.ts. State has the data, Amounts the
--   figures, Quotation the methods. Figures is about the sums, Standings about the states, Offer about
--   `addLine` and Worth about any calls in any order.
-- - Billing/Statement: packages/modules/billing/domain/statement.ts. State has the data, Statement the
--   functions and methods. Lines is about the replacement of a line, Review about what a review
--   keeps, Standings about the states.
-- - Billing/Invoice: packages/modules/billing/domain/invoice.ts. State has the data, Invoice the
--   functions and methods. Amounts is about its figures, Raising about `raise`, Payments about
--   `recordPayment`, Lifecycle and Validity about any calls in any order.
-- - Billing/Store: the tables that billing reads and writes, with the queries of
--   apps/api/src/billing/adapters.ts (unbilledWork, workAttachment) and findById and save of
--   packages/modules/billing/infrastructure/statement.repository.ts. Attaching and Reading are about
--   what is there after a write.
-- - Billing/Generate, Billing/Raise, Billing/Release: generate-statement.ts, raise-invoice.ts and
--   release-from-statement.ts of packages/modules/billing/application, as functions from a store to a
--   result and a store. Proofs are in Generate/Grouping, Generate/Ending,
--   Generate/Runs (generations one after another), Generate/Once, Raise/Billed, Release/Freeing.
-- - Billing/Sweep: sweepOverdue of packages/modules/billing/application/settle-invoice.ts over lateAsOf of
--   packages/modules/billing/infrastructure/invoice.repository.ts, with proofs in Sweep/Starved.
--   The order that the database gives is an argument; Sweep/Order says what `ORDER BY due_on` promises of it.
-- - Time/Entry: packages/modules/time-tracking/domain/time-entry.ts. State has the data, Entry the
--   methods, Freezing is about any calls in any order.
-- - Time/Timer: packages/modules/time-tracking/domain/running-timer.ts, with proofs in Timer/Spans.
-- - Time/WorkingHours: packages/modules/time-tracking/domain/working-hours.ts, with proofs in
--   WorkingHours/Unquestioned.
-- - Time/Service: packages/modules/time-tracking/application/timer-service.ts over the tables of
--   infrastructure/time.repository.ts (Service/Tables). Service/Saved is about what one span writes down,
--   Service/Booking, Service/Calls and Service/Apart about the calls of one person in a row.
--   Service/Review is recordManual and confirm, and approve-time.ts.
-- - Projects/Template and Projects/Project: packages/modules/projects/domain/service-template.ts and
--   project.ts. Project/State has the data, Project the methods; Project/Lifecycle is what a call does to
--   the state, Project/Course, Project/Reasons and Project/Steps are about calls in a row.
-- - Projects/Recurrence: packages/modules/projects/application/recurrence.ts; Recurrence/Sweep is the
--   sweep, over the queries of infrastructure/client-service.repository.ts and project.repository.ts, with
--   proofs in Sweep/Fresh, Sweep/Single, Sweep/Round and Sweep/Twice.
-- - Clients/ClientFile: packages/modules/clients/domain/client-file.ts, with proofs in ClientFile/Kept;
--   `toLowerCase` is an argument.
-- - Clients/TaxPeriod: packages/modules/clients/domain/tax-period.ts, with proofs in TaxPeriod/Rounds
--   (the search), TaxPeriod/Years, TaxPeriod/Days and TaxPeriod/Within (the calendar) and TaxPeriod/Search.
-- - Clients: packages/modules/clients. Clients/RateHistory is domain/client-rate.ts, with proofs in
--   RateHistory/Past; Clients/Lead is domain/lead.ts, Lead/Pipeline its abstract pipeline; Clients/Client
--   is the record and the onboarding of domain/client.ts; Clients/LeadWorkflow is the moving, quoting and
--   converting of application/lead-workflow.ts, and LeadWorkflow/Refused is about refusals.
-- - Deadlines: packages/modules/deadlines/domain. Deadlines/Calendar is business-calendar.ts, with proofs
--   in Calendar/Open and Calendar/Enough; Deadlines/Deadline is deadline.ts, with proofs in
--   Deadline/Moved.
-- - Identity/Permission: packages/modules/identity/domain/permission.ts, with proofs in Permission/Matrix
--   and Permission/Choices.
-- - Identity/User: packages/modules/identity/domain/user.ts, with proofs in User/History.
-- - Identity/Session: packages/modules/identity/domain/session.ts, with proofs in Session/Expiry.
-- - Whatsapp: packages/modules/whatsapp/domain. ServiceWindow is service-window.ts; Conversation is
--   conversation.ts, Conversation/OptedOut is about clients who asked not to be messaged; Message is
--   message.ts, Message/Order is about the order of the callbacks.
--
-- Each part has its tests and its examples in a module Tests.
--
-- How the source's terms are read. A method of the source keeps its name in lower case with
-- underscores (recordPayment is record_payment), a field likewise. A `new Conflict(...)` is a
-- constructor of the part's conflict type, named for what its message says; an event is a constructor
-- of its event type, with the fields of its payload. A `Date` is its time in milliseconds, a whole
-- number; an invalid one appears only where the source tests for it (Duration.tryBetween). A number of
-- the source that is checked to be a safe integer is an integer of any size with that check written
-- out (assertSafeInteger, Number.isSafeInteger); sums on BigInt are exact. Numbers that the source
-- does not check are whole: the hours of a quotation line are kept in hundredths, which is what the
-- source rounds them to before it computes, basis points are whole, and the sum of the weights of
-- `allocate` is exact, as it is in the source up to the largest safe integer. Text compares by its
-- code units.
--
-- A use case takes its ports as arguments: the clock and the generator of identifiers (`ids n` is the
-- n-th that it gives), the rates, the numbers of invoices, the branches, the names of months. The store
-- has what the queries read: a row of work is a time entry with what the query joins to it, `performed_on`
-- being the day in Dubai that the query computes; `statements` is the table of statements with their
-- lines, under their ids. The entries of a line are not in that table: a statement that is read has the
-- entries whose rows name its lines, as in the source. Numbers of invoices are counted. Each use case
-- runs alone, as in the transaction that the composition root opens.
--
-- A holiday's date is the number of its day, as two ISO dates are one text where they are one day.
-- `new Error(...)` of the calendar is one more exception. A use case of enquiries runs in the transaction
-- of packages/modules/audit/infrastructure/unit-of-work.ts, which goes back only where the work throws, so
-- what was saved before a refusal stays.
--
-- The service of timers is given who is assigned to what, whose an assignment is, people's working hours and
-- the ids. The sweep is given the built-in templates, the clients' cycles and the ids. A project is saved as
-- its whole state, with its documents and steps. The sweep's proof asks of the generator of ids that it
-- never repeats one. `Date.UTC` takes a year below 100 for one of the last century; no year is so small.
--
-- Every recursion is structural. The search for the end of a VAT period has twelve rounds, as many as there
-- are months; the searches for a period by its key have the 80 and the 40 steps of the source. A year is
-- written with up to six digits. The search for an open day has the thirty attempts of the source. A number is written in decimal with room for seventeen digits, one more
-- than the largest safe integer has. The loop of `allocate` that hands out the remainder runs as many
-- rounds as the remainder is large, since each round takes one unit off; no other loop has a bound
-- of its own.
--
-- Not modelled: an amount from a floating point number (ofMajor of a number) and its localised text
-- (format), roundings of floating point numbers (ofHours, toDecimalHours), the other use cases,
-- repositories and readers, controllers and jobs, the wording of WhatsApp's replies and the reading of a
-- client's words, and the other modules of packages/modules.
-- Getters and `snapshot` are the fields themselves, and `rehydrate` is the aggregate with no
-- pending events.
pub mod Base
pub mod Kernel
pub mod Projects
pub mod Billing
pub mod Time
pub mod Clients
pub mod Deadlines
pub mod Identity
pub mod Whatsapp
