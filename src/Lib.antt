-- ===== src/Lib.antt =====
-- The API of the sports facility ERP, apps/api: a NestJS server over PostgreSQL (Prisma).
-- Branches are run under consignment contracts; they have staff who are assigned to them,
-- members, programs with schedule slots, and reservations with (mock) payments. The services
-- under apps/api/src/modules hold the rules; they share the calendar helpers of
-- apps/api/src/common/date, and the row locks and the code allocation of apps/api/src/prisma.
--
-- Store is the database: a record of tables, each the list of its rows in the order of their
-- creation, with one data type or record per table and enum of apps/api/prisma/schema.prisma
-- (Store.Branches, Store.Members, Store.Staffing, Store.Audit). A call is a function from a
-- database to a result and the next database (Store.Action); `transaction` undoes the writes of a
-- call that throws. An exception is its code (Store.Errors). The calls of a service run in
-- transactions that first lock a row that all rival calls lock too, so one call is one step, and
-- an interleaving of calls is a sequence of steps. The indexes and CHECK constraints of the
-- migrations stand in the functions that insert or update the rows. Now, the caller and the
-- identifiers that the database generates are arguments. Identifiers, emails, paths and hashes
-- are numbers, for they are only compared; codes are lists of code points. Dates is the calendar:
-- a @db.Date and a text of the form YYYY-MM-DD are the number of a day, an instant its
-- milliseconds from 0001-01-01T00:00Z on.
--
-- Dates (common/date/kst-date.ts, with addMonthsToDateString of
-- modules/branches/contract-retention.ts): Dates.Civil is the Gregorian calendar behind Date.UTC
-- and toISOString, Dates.Kst has the functions of the file. Dates.Civil.Blocks and
-- Dates.Civil.Bijection relate dates and day numbers; the search for a year has the day number as
-- fuel, the search for a month 12, and both are shown to be enough there. make_day is the day of
-- three fields as texts and setters of `Date` take them; utc_day is `Date.UTC`, which reads a
-- year below 100 as one of the 20th century. A text has a year of four digits; what toISOString
-- writes past 9999 is not modelled.
--
-- Integrity (prisma/integrity.ts): lockX is the row that a lock function returns; Integrity.Codes
-- has allocateSequence and allocateBranchCode, where decimal has the number as fuel, which is
-- never fewer than its digits.
--
-- Reservations (modules/reservations/reservation.service.ts,
-- modules/payments/payment.service.ts): create, cancel, check_in and mock_pay. Reservations.Books
-- is the invariant with one module per call, Reservations.Vat the split of an amount,
-- Reservations.History the sequences of calls.
--
-- Staffing (modules/staff/staff.service.ts, terminated-branch-assignments.ts): hire, and in
-- Staffing.Moves resign, assign, update_profile, update_role and
-- end_assignments_at_terminated_branch. Staffing.Frames and Staffing.Termination say what a call
-- does to the tables, Staffing.Invariant what it keeps.
--
-- Contracts (modules/branches/branch.service.ts, contract-file.service.ts,
-- contract-retention.ts): Contracts.Changes has change_contract_status, create_branch,
-- renew_contract, correct_contract and set_contract_file, Contracts.Files archive, purge and
-- download_url, Contracts.Retention the retention of a file, Contracts.View what is shown of a
-- contract. The end of a contract calls Staffing.Moves, so Contracts.Placement has the sequences
-- of calls on staff and contracts together.
--
-- Members (modules/members/member.service.ts): create, register, link, update_profile and
-- update_status; Members.Minors is isMinor, Members.Linking the limit of attempts (link counts
-- and records in no transaction, so it is check_attempts and link_rest there), Members.Status the
-- account that goes with a status, Members.Sessions the enrolments and PT packages.
--
-- Attendance (modules/attendance/attendance.service.ts): check_in, check_out, correct and
-- upsert_work_log; Attendance.Rules has the rules of judgement, Attendance.Leave the requests,
-- their review and the balance. Attendance.Absences is the preview and the confirmation of
-- absences, which the code runs in no transaction, as two definitions; its Months, Reference and
-- Settled are their theorems, Attendance.Days those on the row of a day, where the write of a
-- check-in comes apart from what it has read.
--
-- Auth (modules/auth/auth.service.ts): login, refresh, logout and change_password, with JWT,
-- SHA-256 and bcrypt as the parameter Crypto; refresh is its checks and its write, since it runs
-- in no transaction. Auth.Rotation has the sequences of these steps.
--
-- Access is what a caller may do: the caller (buildRequestUser of modules/auth/auth.service.ts,
-- validate of its jwt.strategy.ts), the permissions (common/permissions) and the guards
-- (common/guards and permission.guard.ts) in the order of app.module.ts; Access.Catalog is
-- permission-catalog.ts, Access.Scope is scope-owners.ts, Access.Cache the cache of the role
-- defaults in one process, Access.Admin modules/permissions/permission-admin.service.ts.
-- Access.Isolation says what the guards let pass, Access.Effective and Access.Admin.Matrix that
-- what is shown agrees with what is decided, Access.Admin.Cells and Access.Admin.History what a
-- change does. What the decorators say of a route, and the texts of a request, are arguments.
--
-- Support (modules/support-requests/support-request.service.ts) and Programs
-- (modules/programs/program.service.ts) run in no transaction where they change a status or a
-- program: a call is its checks and its write, and the sequences of Support.History and
-- Programs.Pricing let any other call come between them. Support.Answers is the answer to a
-- request, Programs.Lifecycle the status of a program. Texts is trim of the language, over code
-- points.
--
-- Assets (modules/assets/asset.service.ts): Assets.Log has the calls as steps and says what the
-- audit log tells of an asset, Assets.Frames and Assets.Changes what one call does, Assets.Trail
-- what any sequence of them does; Facilities (modules/facilities/facility.service.ts), with
-- Facilities.Crowd on what the list shows; Posts (modules/posts/post.service.ts) and
-- Posts.Content (post-content.ts), where the cleaning of HTML, a package, is a parameter, and
-- Posts.Attachments (post-attachment.service.ts and attachment-rules.ts), where the storage is
-- one. Clock times are hours and minutes there, and their order is that of the texts `HH:MM`.
-- Where a call reads first and writes later outside of a transaction, its checks and its write
-- are two definitions.
--
-- Left out: most reads and views, the HTTP layer, the storage service (a contract file is taken
-- as one that ContractFileService.verify has let pass; the answer of the storage to a removal is
-- an argument), the web clients, and the modules that are listed in no file: instructors, the
-- requests of the staff, inbox. The double that splitVat divides by is exact, its quotient is not
-- rounded to 53 bits.
pub mod Prelude
pub mod Dates
pub mod Store
pub mod Integrity
pub mod Reservations
pub mod Staffing
pub mod Members
pub mod Attendance
pub mod Programs
pub mod Assets
pub mod Facilities
pub mod Posts
pub mod Texts
pub mod Support
pub mod Access
pub mod Auth
pub mod Contracts
