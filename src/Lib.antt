-- ===== src/Lib.antt =====
-- A verification library for quackiso, a DuckDB extension that reads bank messages as tables. It
-- models the parts of the program that turn the text of a message into values and rows: the amounts of
-- src/decimal.rs, the dates and times of src/temporal.rs, the SWIFT MT layer of src/mt.rs with the six
-- readers of message types on top of it, and what is asked of a file before it is read: whether it is a
-- container (src/container.rs) and which encoding it declares (src/encoding.rs).
--
-- Parts. `mt` cuts a file into messages, a message into blocks, a body into fields and the entries of a
-- statement into regions, and reads the values of the fields with its leaf parsers. These use
-- `decimal::scaled` for amounts, after the comma has become a point, and `temporal` for dates and times.
-- The readers of the message types put the values into rows: `mt103` and `mt202` one row for each message,
-- `mt101` and `mt104` one for each transaction of a message, `mt940` and `mt942` one for each entry of a
-- statement.
--
-- Files. Each definition has the name of the function that it translates, a part of a long function that
-- of what it does; a comment above it quotes the expression where the name does not say it.
-- - Base: Boolean tests, lists over the native numbers, results, integers.
-- - Text: the functions of str and slice that the code calls, on the bytes of a text; Text/Trim has the
--   white space that `trim` takes off.
-- - Decimal (src/decimal.rs): `scaled` and `scaled_opt`; Decimal/Units says what an amount is worth,
--   Decimal/Exact and Decimal/Sound relate the two.
-- - Temporal (src/temporal.rs): `date_days` and `ts_micros`; Temporal/Civil has the calendar arithmetic.
-- - Mt (src/mt.rs): Mt/Line for one line of a body, Mt/Fields for `Fields`, Mt/Entries for
--   `EntryCursor`, Mt/Dates, Mt/Amount and Mt/StatementLine for the leaf parsers, Mt/Error for the errors.
--   Mt/Take has `MtReader::take_line`, Mt/Reader `MtReader::next_message`, Mt/Blocks the five blocks,
--   Mt/Headers what the headers say, Mt/Parties the party fields.
--   Mt/Reader/Progress shows that a message that is read takes something of the file.
-- - Mt/Stream (`next_row` of src/mt103.rs, mt202.rs, mt101.rs, mt104.rs): the loop of a reader's stream as
--   rounds, and the calls that run them. Mt/Stream/Single has the streams that make one row of a message,
--   Mt/Stream/Queue those that queue its rows.
-- - Mt103 (src/mt103.rs): the reader of credit transfers. Mt202 (src/mt202.rs): that of transfers between
--   institutions, whose two sequences are in Mt202/Sequences.
-- - Mt101 (src/mt101.rs): the reader of requests for transfer, with its sequences in Mt101/Rows.
--   Mt104 (src/mt104.rs): the reader of direct debits. Mt104/Settlement has where the settlement begins,
--   and Mt104/Rows the rows. Both readers find the sequences by Mt/Fields.
-- - Mt942 (src/mt942.rs): the reader of interim reports, with `ctx_from_message` in Mt942/Context and
--   the end of its calls in Mt942/Rows.
-- - Mt940 (src/mt940.rs): the reader of customer statements, with `base_row` in Mt940/BaseRow.
-- - Container (src/container.rs): `detect`, with a file for each kind of container: Container/Zip,
--   Container/Tar, Container/Der for PKCS#7, Container/Pgp and Container/Ebics, which finds the root tag
--   by Container/Xml. Container/Scan has the byte helpers.
-- - Encoding (src/encoding.rs): the label of an XML declaration and the encoding that it means, by the crate
--   encoding_rs as a parameter; Encoding/Declaration has a written declaration.
-- - Examples: the unit tests of the source, and the theorems at concrete inputs.
--
-- Model. A text is the list of its bytes in UTF-8. An error is a constructor that holds what the message
-- quotes, so that two errors are the same only if the code's texts are. An `i128` that is not negative is a
-- natural number, and the checked operations fail from 2^127 on; an `i64` that comes out of digits fails
-- from 2^63 on. The loop of `next_site` runs on one unit of fuel for each byte that is left, and two; a
-- round moves the cursor by at least one byte, so that it is enough.
--
-- The loop of `next_message` runs on one unit of fuel for each byte and each fill that is left to read, and
-- two; a round takes a line, and that takes at least one of them, or the line that was held. The loops of
-- `next_row` are a round and a relation that runs rounds up to one that returns; what makes each such call
-- end is that a round which goes on has read a message, or shut a statement.
--
-- Not modelled: what tells the kind of a file; the decoding of a file that is not UTF-8; the readers of
-- XML, whose parser is a crate; the DuckDB interface; the wording of error messages; memory use.
pub mod Base
pub mod Container
pub mod Decimal
pub mod Encoding
pub mod Examples
pub mod Mt
pub mod Mt101
pub mod Mt103
pub mod Mt104
pub mod Mt202
pub mod Mt940
pub mod Mt942
pub mod Temporal
pub mod Text
