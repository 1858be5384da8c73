-- ===== src/Time.antt =====
-- src/block/time: an append-only store of records in numbered blocks. A block is a directory with
-- two files: `index`, a header and one fixed-size entry for each record, and a data file, named
-- after the block, with the framed records.
pub mod Utils
pub mod Offset
pub mod Record
pub mod Data
pub mod Index
pub mod Block
pub mod Sample
mod Tests
