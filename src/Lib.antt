-- ===== src/Lib.antt =====
-- autopatch: a service that watches protected contracts, reads their storage, replays and mutates
-- attack transactions, and sends transactions of its own. This library models the parts of it that
-- decide something, translated from the Go code, and proves what makes them correct.
--
-- Parts, and the code that they model (paths from the root of the repository):
--   Common          lists, numbers, tests and options of all parts: a Go map is an association list
--                   (Common.GoMap), a big.Int an integer (Common.Int), a string the list of its
--                   bytes (Common.Text).
--   TxMgr           txmgr/. SendState is send_state.go, a function for every method. WaitMined is
--                   waitMined of txmgr.go, a recursion over the answers of the backend. Manager is
--                   SimpleTxManager.Send of txmgr.go: the loop and its goroutines share a send
--                   state, a context and a channel of capacity one; `step` is what one event does
--                   to them, and a run is a list of events, so that a theorem about all lists is one
--                   about all interleavings. Manager calls SendState and the two halves of
--                   WaitMined.
--   Sync            synchronizer/ and common/bigint/. Bigint is Clamp, Headers the two header
--                   queries of node/node.go, Traversal node/header_traversal.go, Synchronizer
--                   synchronizer.go. Traversal takes a Client, as the code takes an interface;
--                   NodeClient builds one from Headers and shows that it has what the theorems on
--                   the traversal ask of a client.
--   Storage         storage/utils/. Variable has the variables of a layout (scan.go), Value the
--                   methods Value, Index and Field (scan.go, slice_value.go, struct_value.go), Bytes
--                   the conversions of math/big and of common.Hash that they call. Layout builds the
--                   variables from solc's layout and Label reads the texts in it (parse.go). Mapping has
--                   the slots of the keys of a mapping (mapping_value.go).
--   Mutation        tracing/mutation/. Steps is mutation_manager.go; the other modules are
--                   type_aware_mutator.go: Numbers, Texts, Addresses and Dispatch, the choice by
--                   the ABI type.
--   Modifier        tracing/mutation/modifier.go. Input has the basic strategies on call data, Slots the
--                   changes of stored values by steps, Outcome the data or the panic that a strategy
--                   ends with. Slots makes the records of Tracing.Rules.
--   Planner         tracing/mutation/smart_mutation_strategy.go. Learning records results and adapts the
--                   size of a batch, Plan shares a batch among the strategies.
--   Tracing         tracing/utils/types.go. Jumps is the tracer with its hooks and the interception of
--                   calls, Similarity compares two paths, Rules makes protection rules of a
--                   modification.
--   Analysis        tracing/analysis/storage_analyzer.go. Slots gives types and scores to storage slots,
--                   Mutator changes one of them and calls Mutation.Dispatch.
--   Concurrency     tracing/utils/concurrency.go: Cache is SafeCache, Manager the ConcurrencyManager as a
--                   step relation with a step for each operation on shared state, Pool the
--                   WorkerPool as a step function; runs are all interleavings.
--   Sender          txmgr/ethereum/transaction.go. Batch is BatchTransactionSender: its channels and
--                   workers as a step function, as in Concurrency.Pool (Common.Move).
--   Config          tracing/config/. Validation is config_validation.go on the records of
--                   config_manager.go (Result), Patterns its regular expressions, Defaults the default
--                   configuration. A text is a list of characters there.
--   Database        database/utils/serializers/. U256 is u256.go.
--
-- Integers: uint64 and int64 wrap around where the code computes on them (u64, uint64, int64);
-- conversions of a big.Int to them keep the low 64 bits of the magnitude, as math/big does. Slots
-- are numbers below 2^256. A variant of a mutation is a natural number: the callers count variants
-- from 0, and the model has no negative one.
--
-- Fuel: big.Int.Bytes is the recursion to_bytes with a bound on the number of bytes: 32 for a
-- word of storage, which the shifts and masks keep below 2^256, 20 for an address, which is
-- reduced modulo 2^160, and 9 for the sum of eight bytes and an int64. Storage.Bytes.Laws has
-- that the bytes stand for the number wherever the bound is enough. The search for a type in a
-- layout recurses on fuel; a layout without cycles needs as much as its types rank.
--
-- Numbers that are put over call data get 34 bytes, which a word of 32 bytes with a step or a
-- small factor stays below, and a number of 256 bits is printed with at most 78 digits; the loop
-- over the words of call data has one unit of fuel for each 32 bytes. All other loops are
-- structural recursions on the list or the number that the code counts through. The scores of
-- storage slots are hundredths, since the code only adds two decimals and compares.
--
-- Parameters, for code of other packages: the text of core.ErrNonceTooLow, Header.Hash,
-- Keccak256Hash, the reader of storage slots, the answers of the RPC connection, of the receipt
-- backend and of the database, the bytes of crypto/rand, the sending of one transaction, which
-- may panic, the results of client tasks, common.IsHexAddress, common.FromHex, strconv.ParseInt
-- with a base prefix, and url.Parse, of which only its error is read. So is the arithmetic of
-- float64: the ratio of a change and whether it is above a tenth (Tracing.Rules), whether a ratio
-- is below 0 or above 1 (Config), the success rates and the order of the strategies by their
-- score (Planner).
--
-- Not modelled: building and signing of transactions (the rest of txmgr/ethereum), the replay
-- loop around the virtual machine of go-ethereum, the changes of modifier.go that decode
-- arguments by the ABI, metrics, the other parts of the database layer, the loading of the
-- configuration, start-up, and the generated bindings. Logs have no effect on the state, but for
-- a log line that dereferences nil, which is in the model.
pub mod Common
pub mod TxMgr
pub mod Sync
pub mod Storage
pub mod Mutation
pub mod Concurrency
pub mod Modifier
pub mod Tracing
pub mod Planner
pub mod Analysis
pub mod Config
pub mod Database
pub mod Sender
