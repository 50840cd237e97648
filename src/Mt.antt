-- ===== src/Mt.antt =====
-- src/mt.rs: framing and field parsing of SWIFT MT messages.
pub mod Line
pub mod Error
pub mod Dates
pub mod Amount
pub mod StatementLine
pub mod Fields
pub mod Entries
pub mod Blocks
pub mod Headers
pub mod Parties
pub mod Take
pub mod Reader
pub mod Stream
