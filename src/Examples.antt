-- ===== src/Examples.antt =====
-- Runs of the model on concrete input, and each theorem at an input that meets its hypotheses.
mod Containers
mod Decimals
mod Temporals
mod Entries
mod Leaves
mod Messages
mod Transfers
mod Statements
mod Readers
mod Encodings
