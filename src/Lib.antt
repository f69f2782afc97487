-- ===== src/Lib.antt =====
-- A model of zk-ress, a partially stateless Ethereum client, and proofs about it.
--
-- The program: a consensus layer sends new payloads and forkchoice updates to `ConsensusEngine`, which
-- hands them to `EngineTree`. The tree verifies blocks with proofs, stores them in the provider's chain
-- state, keeps blocks that lack a parent or a proof in a buffer, and asks for what is missing. The
-- engine starts those downloads; their outcomes come back to it and go into the tree. A network manager
-- passes the requests on to peers. The verifier runs a block on the state that its proof, an execution
-- witness, reveals under the parent's state root, and compares the state root.
--
-- Files, with the code that they model:
--   ChainState      crates/provider/src/chain_state.rs: `ChainStateInner`, a function for each method.
--   Provider        crates/provider/src/provider.rs: `ZkRessProvider`.
--   Buffer          crates/engine/src/tree/block_buffer.rs: `BlockBuffer`; Buffer/Descendants has the
--                   operations that follow parent links, Buffer/Lru the interface of `LruMap`.
--   Outcome         crates/engine/src/tree/outcome.rs.
--   Tree            crates/engine/src/tree/mod.rs: `EngineTree`; Tree/NewHead is `on_new_head` and
--                   `make_canonical`, Tree/Invalid the answers to invalid payloads, Tree/Insert
--                   `insert_block` and `try_connect_buffered_blocks`, Tree/Payload and Tree/Forkchoice
--                   the handlers, Tree/Sound the invariant that ties the stores together.
--   Download        crates/engine/src/download/futs.rs, a module for each future, and download/mod.rs in
--                   Download/Downloader.
--   Engine          crates/engine/src/engine.rs: `ConsensusEngine`; one turn of its event loop is
--                   `poll_round` of Engine/Poll.
--   Network         crates/network/src/manager.rs: `RessNetworkManager`.
--   Verifier        crates/verifier/src/lib.rs: `ExecutionWitnessVerifier`; Verifier/StateRoot is root.rs.
--   Evm             crates/evm/src: the database over a revealed trie and the block executor.
--   Launch          bin/zk-ress/src/launch.rs: the provider, verifier, engine and network that a node starts
--                   with.
--   Provider/Protocol  what the provider serves to peers; Network/Handle is crates/network/src/handle.rs.
--   RpcAdapter      crates/testing/src/rpc_adapter.rs: peer requests answered from an RPC node.
--   Adapter, Rpc, Cli  bin/adapter/src/main.rs, bin/zk-ress/src/rpc.rs and cli.rs.
--   Reth, Results   reth's consensus, tries and executor as parameters, and results that may be errors.
--   Env, Primitives, Blocks, Base: the types and operations of other crates as parameters, the data
--                   read of headers and blocks, chains of parent hashes, and shared helpers.
--   Examples        a list as the `LruMap` with its laws, small states, and the theorems at work.
--
-- Correspondence: a method that takes `&mut self` is a function from the state to the state, beside its
-- result. Locks are held for a whole method, so a call is a step. Hashes and block numbers are natural
-- numbers; the code only compares numbers, counts down a number that is known to be greater, and
-- subtracts with saturation, so no wrap-around is reached. Maps are association lists, sets are lists,
-- and a set's iteration order is its list's. Futures are functions of what the peers answer;
-- the downloader polls them on those answers and builds the outcomes. A round of the engine takes the
-- outcome that a poll of its downloader returns as an input, and leaves the requests in flight alone.
--
-- Fuel: `block_hash`, `lowest_ancestor`, `meet` and `is_fork` walk along stored blocks and get the number
-- of stored blocks; `remove_children` and `evict_children` get the number of waiting hashes and of
-- listed children, of which each round uses one. The walk over the invalid header cache gets one
-- more than the size of that cache, where the code's loop has no bound. Where enough fuel is proved,
-- the results say so.
--
-- Not modelled: metrics, logs, timings and delays; sockets, servers and spawned tasks; parsing of the
-- command line; the headers stage of the range download (its bodies stage is); the reth node of
-- bin/reth, which only adds a protocol.
pub mod Base
pub mod Primitives
pub mod Results
pub mod Reth
pub mod Evm
pub mod Verifier
pub mod Blocks
pub mod ChainState
pub mod Provider
pub mod Buffer
pub mod Outcome
pub mod Env
pub mod Tree
pub mod Download
pub mod Engine
pub mod Network
pub mod Launch
pub mod RpcAdapter
pub mod Rpc
pub mod Cli
pub mod Adapter
pub mod Examples
