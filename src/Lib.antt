-- ===== src/Lib.antt =====
-- The rollup sequencer of zk-obs, an order book exchange on a zero-knowledge rollup.
--
-- The program takes requests (register, deposit, withdraw, place, match and cancel an order) from a
-- queue, applies each to three Merkle trees in a database (accounts, tokens of each account,
-- orders), records the leaves, roots and proofs before and after each update as inputs of a
-- circuit, and closes a block of ten requests. This library models that part and the helpers it
-- stands on:
--
-- - Common: native numbers, lists, integers for bigint, and the actions that stand for async methods.
-- - Bigint: backend/ts-sdk/src/domain/lib/bigint-helper.ts and helper.ts.
-- - Merkle: backend/common/ts-typeorm/src/common/tsMerkleTree.ts, and the loop of `_updateLeaf` that
--   the three tree services have in common (`climb_round`, `climb`, `update_path`).
-- - MerkleTreeDp: the tree in memory of backend/ts-sdk/src/domain/lib/merkle-tree-dp.ts, its node array
--   a function of the index, with `none` for `undefined`. Its theorems are in Updates (the rebuilt
--   path), Reference (the constructor) and Verifying (proofs). `1 << h` is 2 ^ h, so heights stay below 31.
-- - Mimc: the MiMC7 hash, backend/ts-sdk/src/domain/lib/mimc-hash.ts, and in Cached the one with a
--   cache, mimc-hash-dp.ts beside it; Equivalence compares them.
-- - Transaction, TxCodec: the request (transactionInfo.entity.ts, ts-types.ts), `encodeRChunkBuffer`
--   and `bigint_to_chunk_array` of backend/ts-sdk/src/domain/lib/ts-rollup/ts-tx-helper.ts, and
--   `getTxChunks` of the sequencer.
-- - Trees: the leaf entities, and the services tsAccountTree.service.ts, tsTokenTree.service.ts and
--   obsOrderTree.service.ts of backend/common/ts-typeorm/src, over one record of tables.
-- - Sequencer: backend/ts-sequencer/src/infrastructure/sequencer.processor.ts. Its state is the
--   record `Sequencer`; Payload, Accounts, Updates, Orders, Handlers, Matching and Rollup hold its
--   methods, each under its own name in snake case.
-- - Pipeline: what stands around the sequencer. Queries are the reads of tables by status; Producer is
--   backend/ts-core/src/producer.service.ts, which fills the queues; Prover is
--   backend/ts-prover/src/infrastructure/prover.processor.ts; Operator is
--   backend/ts-operator/src/infrastructure/operator.processor.ts, which submits blocks to the contract;
--   Events is operator.producer.ts beside it, which turns events of the contract into requests.
-- - Auction: the matching engine, backend/ts-sdk/src/domain/lib/ts-auction-engine.ts. InterestMap is
--   `getLendOrderInterestMap`, and Matching `getMatchedOrders`: a detail is an object that a lend order
--   and a borrow order share, so orders hold addresses into a store. The theorems are in Grouping,
--   Filling (amounts), Crossing (what is left) and Prices (rates), over the lemmas on one
--   match, the loops and the rounds of the borrow orders in the other modules.
-- - Ledger: an abstract view of the tables as balances, identities and orders. Tables and Services say
--   what a write to a table and a call of a service do to it, Points and Hooks what the sequencer's
--   calls promise one another, and Requests what each handler does. Roots, Blocks, Closing and
--   Processing are about how requests fill a block up and what is left when it is closed.
-- - Tests: concrete inputs.
--
-- An async method is a function from the state to a result, or an error, and the state that it
-- leaves. Nothing is undone by an error but what `connection.transaction` undoes. A call without
-- `await` (`detached`) settles before or after the rest of its handler, as `settles_first` says; an
-- error of such a call goes to `unhandled`. A repository read inside an open transaction sees only
-- what is committed, or the transaction's writes too, as `Isolation` says.
--
-- Loops run on fuel: `proof_ids_from` and `log2_from` get the node's id, `chunks_from` the number
-- itself, `proof_from` and `update_from` the node, and `strip_zeros` the amount, each of which is at
-- least the count of rounds. `do_transaction` has fuel for the calls that `endRollup` makes of it:
-- one is enough for a request that does not
-- fill the block up, and three for one that does.
--
-- `floor_log2` is `Math.floor(Math.log2(Number(x)))` in doubles: the exact logarithm from `log2_from`,
-- and one more where `rounds_up` says that x is so close below the next power of two that the
-- double of its logarithm is the next whole number. This begins at 2 ^ 49 - 1, so that the theorems
-- on the sequencer take trees of heights up to 47 (`IsLow`, an instance).
--
-- Parameters are the Poseidon hash, `solidityPack` of ethers (its documented packing is the hypothesis
-- `PacksTightly`), the heights of the trees, the two choices above, and for the pipeline the queue's
-- answer to a job, the commands of the prover, the contract that the operator calls and the database's
-- answer to an insert. Not modelled
-- are the logger and the console, the inside of the queue, the controllers and their guards, the
-- subscriptions of the operator, migrations, contracts and circuits.
pub mod Common
pub mod Bigint
pub mod Merkle
pub mod MerkleTreeDp
pub mod Mimc
pub mod Transaction
pub mod TxCodec
pub mod Trees
pub mod Sequencer
pub mod Pipeline
pub mod Auction
pub mod Ledger
pub mod Tests
