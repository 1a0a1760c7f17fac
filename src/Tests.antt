-- ===== src/Tests.antt =====
-- The theorems at concrete inputs.
mod Rows
mod Locks
mod Versions
mod Log
mod Scans
mod Pages
mod Frames
mod Transactions
mod Errors
mod Queries
mod Statements
mod Recovery
mod Parsing
