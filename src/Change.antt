-- ===== src/Change.antt =====
-- src/storage/methods/generateChange.ts and utils.ts: the choice of change inputs and outputs that
-- funds a transaction. The children hold, in order, the data, the sizes, the storage of available
-- change, the funding loops and the whole function; then what is proved of them.
pub mod Data
pub mod Size
pub mod Pool
pub mod Funding
pub mod Settle
pub mod Generate
