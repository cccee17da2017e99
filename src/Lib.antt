-- ===== src/Lib.antt =====
-- rUniversalDB is a distributed SQL database: tables are split into tablets on slave groups, a
-- master group holds the schema, and each group is a Paxos group of nodes. This library models the
-- parts on which every node stands.
--
-- The parts, by file. Paths in the comments are those of the repository.
--   MultiVersionMap   src/multiversion_map.rs: the versioned store of a tablet. An `MVM` keeps, for
--     each key, the versions with their timestamps and a LAT, the last access time, at or below
--     which the history of the key is fixed. Below: Reads (reads after writes), History (sequences
--     of calls), Snapshot (whole snapshots, the latest LAT).
--   Paxos             src/paxos.rs, the `PaxosDriver` of one node of a group, with the messages of
--     src/message.rs (Paxos/Message). Instance has the arms of one Paxos instance (acceptor,
--     proposer, learner), State the record of the driver, Deliver the utilities on its instances
--     and `deliver_learned_entries`, Group its construction, its getters and the reconfiguration,
--     Multi the handling of a `MultiPaxosMessage`, Handler the other messages and
--     `handle_paxos_message`, Timer the insertion of bundles and the timer events. Below Instance
--     stand the theorems on one instance, below Log those on the log that a driver keeps (Deliver,
--     Multi, Buffer and Handler on its growth, CatchUp on nodes that are behind, Purge on what is
--     forgotten). Group/Handover has the state that a new node starts from, and Group/Dead the
--     nodes that seem dead.
--   Network           src/network_driver.rs: the `NetworkDriver`, which holds back remote messages
--     of a leadership that this group does not know yet, until its leader map has caught up.
--   FreeNode          src/free_node_manager.rs: the `FreeNodeManager` of the master group, which
--     hands out free nodes for reconfigurations and new slave groups (FreeNode/Process: `process`
--     and `handle_plm`; FreeNode/Grants: what they hand out; FreeNode/Counts: the heartbeat
--     counts).
--   Value             src/common.rs: the values and types of columns, primary keys, and the key
--     range of a tablet. Value/Int32: the operations of `i32`.
--   Region            src/common.rs and src/expression.rs: bounds of key columns, regions of rows,
--     and their intersections and complements (below it, Bounds). Region/Isolation: whether a write
--     and a read may meet. Region/Sharding: regions against the key range of a tablet.
--   Expression        src/expression.rs: expressions and their evaluation, with the scalar
--     expressions of src/sql_ast.rs. Expression/Build: how they are built. Expression/KeyBounds:
--     the key region of a WHERE clause; below it, Leaf, Sound, Types, Keys, KeyRegion and Where
--     follow the computation from a comparison to the whole clause.
--   Stm               src/stmpaxos2pc_tm.rs, src/stmpaxos2pc_rm.rs: the commit of a schema change.
--     Stm has the messages, Stm/Tm the state of a transaction at its transaction manager (TM),
--     Tm/Handler the messages of the resource managers (RMs) and the insertions of PLms, Tm/Leader
--     changes of leaders and of the group, Tm/Container the transactions of a node, Tm/Calls
--     sequences of calls. Consistent, Agree and Invariant are on the state against what is kept
--     for a new leader, Decision, Budget, Commit and Held on the decisions, Snapshot on what a new
--     node starts from, Phase and Refinement on the log of the group. Stm/Rm has the RM, with its
--     calls (Rm/Handler), the transactions of a node (Rm/Container) and its answers (Rm/Answer).
--   Base, BTreeMap, BTreeSet   shared names and lemmas, results, orders (`Ord`), and the ordered
--     maps and sets of the standard library of Rust, as association lists.
--   Tests             concrete states and runs.
--
-- How they interact: a server gives the messages of its group to the `PaxosDriver`, and processes
-- the entries that `handle_paxos_message` returns. An entry may change the leader map, by which
-- the `NetworkDriver` sorts remote messages; the messages that it passes on lead to reads and
-- writes of the `MVM` of a tablet, and at the master to calls of the `FreeNodeManager`. A tablet
-- computes the regions of reads and writes from their WHERE clauses (Expression/KeyBounds), and
-- holds back those that are not surely isolated (Region/Isolation). The TM and the RMs of a
-- transaction push PLms into the bundles of their groups, and go on when these are inserted. Each
-- part is modelled on its own; what it takes from the context (`this_eid`, leadership, random
-- draws, uuids, new ids) is an argument, and what it does to the context is a list of effects.
--
-- Conventions.
--   Integers: `u32` rounds and counters wrap around as in a release build (`add_u32`). Indices
--     (`PLIndex`, u128), generations (`Gen`, u64) and sizes are unbounded numbers. A timestamp,
--     a pair of milliseconds and a suffix compared in that order, is a number.
--     An `i32` is the number that is larger by 2^31, so that its order is the one of numbers; its
--     operations wrap around as in a release build, and a division panics where Rust's does.
--   Strings are the lists of their bytes, whose order is the one of `String`.
--   Panics: `Result` has `ok`, `panic` (a failed `unwrap`) and `out_of_fuel`. In MultiVersionMap,
--     whose methods have only `assert!`, a panic is `none`. In Expression, a result
--     is `ok`, `err` with an `EvalError`, or `panic`. A `debug_assert!` is not part of a
--     release build: where a theorem needs it, it is a hypothesis.
--   Loops without a bound run on fuel. Deliver takes one more than the distance from `next_index`
--     to the bound of the instance keys, since each round passes an instance; so does the loop of
--     `InformLearned`, for the indices of its message. The loop over the buffer takes one more
--     than its messages and its indices together, each round removing one. That for new
--     slave groups takes one more than the number of nodes, each group using up at least one.
--   Types of the outside: ids of nodes, groups and keys are type parameters with an order (`Ord`),
--     as are the bundles that a group replicates and the payloads of messages. The queries
--     inside a `ValExpr` are a type parameter, and the values of its subqueries an argument. In
--     Stm, the payloads are a record of types, and the inner part of a protocol a record of
--     functions on its state and the context.
--
-- Not modelled: the commit protocol of queries (src/paxos2pc_tm.rs and its companions), the query
-- plans and their execution, the tablet's region isolation algorithm, storage views, which are
-- further components; the servers and contexts (src/server.rs, src/slave.rs, src/master.rs), which
-- dispatch; the network and the command line, which are input and output; the simulations.
pub mod Base
pub mod BTreeMap
pub mod BTreeSet
pub mod MultiVersionMap
pub mod Paxos
pub mod Network
mod Tests
pub mod FreeNode
pub mod Value
pub mod Stm
pub mod Region
pub mod Expression
