-- ===== src/Lib.antt =====
-- Models and proofs of the wallet toolbox, a library for BSV wallets. The program's own logic lies in
-- its storage methods, which build transactions, in the services, which ask several providers in turn,
-- in the chain tracker, which follows block headers, and in the messaging and mock chain around them.
-- Ten parts of it are modelled here.
--
-- Base: Boolean tests, lists and signed integers over the native numbers, shared by all files, and the
-- results of calls that may throw (Results).
-- Change: src/storage/methods/generateChange.ts with the sizes of src/storage/methods/utils.ts, called by
-- createAction to fund a transaction. Data has the parameters and results, Size the serialised sizes,
-- Pool the in-memory storage of generateChangeSdkMakeStorage, Funding the state (allocated inputs and
-- change outputs) with the loops of fundTransaction, Settle the distribution of the excess, the removal
-- of dust and the check of the result, Generate the whole of generateChangeSdk. The two callbacks to
-- the storage are an interface, Allocator, that the in-memory storage implements (Pool.Store). The
-- floating-point products Math.ceil(size / 1000 * rate) and Math.floor(part * excess) are parameters
-- (Doubles), as are Random and the validators of @bsv/sdk (Sdk); random values are fractions of 2 ^ 32,
-- and the fee rate, which the source reads as any number, is a natural number. The amounts are
-- unbounded integers: a satoshi amount stays below 2 ^ 53. The loops run on fuel: the funding loop on
-- the number of available inputs and the loop around it on the number of change outputs, each of which
-- goes down in every round, the distribution on the excess. Logging is left out.
-- Lock: SingleWriterMultiReaderLock.ts in src/services/chaintracker/chaintracks/util. A task's call is
-- split at its awaits into steps: entering, resuming behind an awaited promise, and leaving. Promises
-- that are resolved but whose tasks have not resumed are the list `woken`, a part of the state that the
-- source leaves to the runtime.
-- ServiceCollection: src/services/ServiceCollection.ts, the list of providers of a service with its index
-- and call histories. Times are milliseconds; each history keeps its current interval apart from the
-- earlier ones. A getter that would read past the end is none.
-- HeightRange: src/services/chaintracker/chaintracks/util/HeightRange.ts, with the BlockHeader of
-- src/sdk/WalletServices.interfaces.ts.
-- Merkle: src/mockchain/merkleTree.ts and the digests of src/utility/utilityHelpers.ts. SHA256, the two hex
-- conversions and the MerklePath constructor of @bsv/sdk are parameters. The loop to the root and the
-- count of levels run on fuel, the number of txids, which each level at least halves, rounding up.
-- Broadcast: src/messaging/consumers/BroadcastConsumer.ts and src/broadcast/BroadcastOrchestrator.ts. Texts has
-- the tests on texts, Classify the classification of the providers' results, Request the checks of a
-- request, Message those of a payload, Effects the calls of other parts and a monad of computations that
-- make calls and return or throw, Consume the consumption of one message. The other parts (loading,
-- posting, recording, publishing, settling, JSON.parse, JSON.stringify and toLowerCase) are the record
-- World, whose answers may depend on the calls made before; the order of the queue p-queue is left out.
-- HeaderCache: src/cache/BlockHeaderCache.ts, the cache by height and by hash. The store of node-cache is a
-- parameter with its laws of get, put and delete, and the expiry of an entry is an operation of its own;
-- the two kinds of text keys are a data type. Coherent, Invalidation and Setting are about single
-- operations, Runs about sequences of them. The loop of the eviction runs on the number of hashes.
--
-- ChainWork and HeaderBytes: src/services/chaintracker/chaintracks/util/blockHeaderUtilities.ts. A chain work
-- is the number that its text writes; BigNumber of @bsv/sdk is natural numbers and its notn a parameter.
-- The reader, the writer, the hash and the hexadecimal texts of @bsv/sdk are the record Sdk. A loop over
-- a buffer runs on its length, of which each round uses 80 bytes.
-- LiveHeaders: src/services/chaintracker/chaintracks/Storage/ChaintracksStorageNoDb.ts. The maps are lists in
-- the order of insertion. Store, Tree, Growth and Chain are about the map, the links between headers and
-- the active chain; Insertion has insertHeader, with its loops (Search, Deactivation, Activation), their
-- composition (Switch, Extension, Acceptance), the first header (First) and the whole (Sound, Outcome,
-- Forks); Deletion has
-- deleteOlderLiveBlockHeaders, for a height below the active tip (migrateLiveToBulk calls
-- it with the height of the last header moved); Runs is about sequences of these calls and the calls that
-- find a header. The loops run on the
-- largest id and two, since each round goes to a smaller id. The last bulk file is a parameter, and the
-- pruning that insertHeader starts without awaiting it is not a part of it.
-- Sync: src/storage/schema/entities. The maps of foreign ids to local ones are association lists, one for
-- each kind of entity in the order in which they are merged; the storage, and what mergeFind and mergeNew
-- look up and insert, are the record Kinds. Maps is about the maps of ids, Growing about the entities
-- of an array, Chunks about the processing of a chunk, Rows has mergeExisting of four kinds of rows and Rows.Newest what a sequence of versions leaves.
--
-- Not modelled: the storage backends, network clients, cryptography and user interfaces, which are I/O
-- or calls of other packages, and the parts of the program that the list of components names as planned.
pub mod Base
pub mod BlockHeader
pub mod HeightRange
pub mod Change
pub mod Lock
pub mod Sync
pub mod ServiceCollection
pub mod ChainWork
pub mod HeaderBytes
pub mod LiveHeaders
pub mod Merkle
pub mod Broadcast
pub mod HeaderCache
