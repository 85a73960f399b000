-- ===== src/Lib.antt =====
-- The off-chain clients of the Across bridge (the TypeScript SDK of this repository).
--
-- The SDK reads the events of the bridge's contracts on many chains and answers, for a given block,
-- what the contracts' state was: which SpokePool and which token belonged to a chain, and which
-- root bundles (proposals to settle the chains' balances) had been executed in full. A relayer
-- and a proposer of bundles rely on two programs that run these queries at different times giving
-- the same answer.
--
-- The parts, and where they are modelled (paths from the repository's root):
--   * Events: the orders on events of src/utils/EventUtils.ts. `sort_events_ascending` and
--     `sort_events_descending` are sortEventsAscending and sortEventsDescending: JavaScript's sort
--     is stable, so a stable insertion sort with the source's comparator stands for it
--     (Prelude/Sort.antt). Events/Order.antt has the laws.
--   * Events/Pages.antt: getPaginatedBlockRanges and paginatedEventQuery of the same file. The node
--     (ethers' `queryFilter`) is a parameter that may answer each attempt anew; the recursion on
--     `retryCount` is a recursion on the retries that are left, of which there are 3.
--     Events/Pages/Tiles.antt has the laws of the ranges, Events/Pages/Query.antt those of the query.
--   * Arrays: chunk, findLastIndex and findLast of src/utils/ArrayUtils.ts, and `SearchFromRight`,
--     lodash's findLastIndex and findLast as documented. The client takes that interface as a
--     parameter, and the functions of this file fill it (Arrays/Laws.antt).
--   * BaseClient: the search range of src/clients/BaseAbstractClient.ts, which every client extends.
--     Objects: `assign` of src/utils/ObjectUtils.ts.
--   * HubPool: the state of HubPoolClient (src/clients/HubPoolClient.ts) as one record; its methods
--     are functions of it under their names in snake case. HubPool/Events.antt is `_update` (what is
--     queried, and what the node and the contracts answer), HubPool/Loops.antt and
--     HubPool/Update.antt are `update`, a loop and a step
--     per kind of event, and the child modules of Update follow the client through updates: Steps
--     (an update as a whole), Fetch (the queries), Mirror and Preserves (the client against the
--     event log), Runs (from the constructor on), Past and Failure. HubPool/Balances.antt has the
--     running balances, HubPool/Tokens.antt the look-ups of SpokePools and tokens, with Newest and
--     Equivalence for their laws, HubPool/Bundles.antt the queries of root bundles, with Finality
--     and Nth. HubPool/Utilization.antt has getUtilization and its cache, with shouldCache of
--     src/utils/CachingUtils.ts.
--   * BundleUtils: src/utils/BundleUtils.ts, on top of the HubPool client. The config store client's
--     answers are parameters.
--   * ConfigStore: AcrossConfigStoreClient (src/clients/AcrossConfigStoreClient). The state is one
--     record, ConfigStore/Queries.antt and ConfigStore/Chains.antt are its methods,
--     ConfigStore/Loops.antt the two loops of `update` and ConfigStore/Update.antt `_update` and
--     `update`. WellFormed and Preserves follow the stored lists through updates; Indices,
--     Enabled, Versions and Rates are about what the look-ups answer, and Stuck about an update that
--     cannot succeed. Json: what the client reads of texts. `JSON.parse`, `Number` and ethers'
--     BigNumber are an interface (`Engine`), as are the rate models of UMA's SDK (`RateModels`); the
--     two regular expressions and toBN (src/utils/BigNumberUtils.ts) are written out.
--   * SpokePool: SpokePoolClient (src/clients/SpokePoolClient.ts) with the types of
--     src/interfaces/SpokePool.ts. SpokePool/Queries.antt has its look-ups, SpokePool/Loops.antt the
--     loops of `update`, SpokePool/Update.antt `_update` and `update`, SpokePool/Find.antt
--     findDeposit. The client's hub pool and config store clients are those of this development.
--     Extends, Steps and Keeps follow the deposits and fills through updates; Matching, SpeedUps and
--     Routes are about the look-ups. FlowUtils and DepositUtils are src/utils/FlowUtils.ts and
--     src/utils/DepositUtils.ts. The hash of relay data (keccak256 of an ABI encoding) is a parameter
--     of which nothing is assumed.
--   * SpokeUtils: the two binary searches of src/utils/SpokeUtils.ts, for the block of a deposit and
--     of a fill. The contract's answers at a block are a parameter.
--   * BlockFinder: averageBlockTime and the cache of BlockFinder (src/utils/BlockUtils.ts), with
--     BlockFinder/Search.antt for getBlockForTimestamp and findBlock. The provider, lodash's clamp and
--     sortedIndexBy and the constants of the chains are parameters (`World`, `Lodash`). Cache and Fetch
--     are about the cached blocks, Between about the interpolation search, Back about the search
--     backward, Cuts about cut arrays, and Latest about the whole.
--   * LpFee: LPFeeCalculator (src/lpFeeCalculator/lpFeeCalculator.ts), with min and max of
--     src/utils/common.ts. decimal.js is an interface (`Decimals`). LpFee/Curve.antt is about the rate
--     and LpFee/Area.antt about the area under it and the yearly rate.
--   * RateDictionary: RateModelDictionary (src/lpFeeCalculator/rateModel.ts). ethers' getAddress and
--     JSON.parse are parameters (`Parsers`). Entries and Newest are about the look-up by block.
--   * Prelude: shared types and lemmas; tests and concrete runs are in the modules called Tests.
--
-- Conventions. Block numbers, chain ids, counts and unsigned amounts are natural numbers, signed
-- amounts are integers. An object that is used as a map is an association list in the order of
-- its keys' first insertion; the order of Object.keys differs from that for keys that look like
-- array indices, which addresses do not. `undefined` is `none`; a thrown error is an `err` that
-- tells the messages apart without their text; logging and delays leave no trace.
-- `BigNumber.toNumber` fails above 2 ^ 53 - 1. An optional argument is an argument of its own.
-- The loops of getNthFullyExecutedRootBundle and getRootBundleEvalBlockNumberContainingBlock are
-- structural recursion on the rounds and on the list; the loop of chunk runs on fuel, which is
-- the array's length since each round takes at least one element. The search for a fill runs on
-- fuel as many rounds as there are blocks, and the search for a deposit on the source's own limit.
--
-- The HubPool client's constructor sets its latest searched block to -1 for a deployment block of 0,
-- and the model to 0: no update reads it before it sets it.
--
-- A client's `update` gives the client as it is left, and the error if it throws half-way. The
-- event log of an update's properties is the whole history of the contract's events, of which a
-- node serves the part in a query's range; the type of event names leaves no room for one that is
-- not supported. What the queries that reject are rejected with is not told apart.
--
-- The text `${depositId}-${originChainId}` that the SpokePool client uses as a key is the pair of the
-- numbers, which it tells apart. The keys of the config store are an enumeration; its contract has
-- them as padded texts. The SpokePool client's update passes over a failure of `_update` that is
-- a value, whatever its reason, and throws what is thrown.
--
-- The block finder's estimate of a block is exact arithmetic on quotients, not on doubles; the laws
-- do not depend on it, since it is clamped. Its search between two blocks runs on fuel, one more than
-- the upper block's number, and the search backward on one more than the number of the first cached
-- block; each step takes at least one block. The hints' answers arrive in the order of the calls.
-- The provider knows no block where it throws or answers null; the finder caches no null.
--
-- Not modelled: the copying of event arguments (spreadEvent), network clients (prices, gas, IPFS,
-- Arweave, the API), contract bindings, mocks, the schema of cached deposits (superstruct), the UBA
-- configurations of the config store client, to which no code adds, and, so far, HubPoolClient's
-- batches of LP fees (the quote blocks of deposits are an interface), the
-- calculator of relay fees and the pool client.
pub mod Prelude
pub mod RateDictionary
pub mod Arrays
pub mod BaseClient
pub mod BlockFinder
pub mod Objects
pub mod Events
pub mod HubPool
pub mod SpokeUtils
pub mod BundleUtils
pub mod Json
pub mod LpFee
pub mod ConfigStore
pub mod SpokePool
pub mod FlowUtils
pub mod DepositUtils
