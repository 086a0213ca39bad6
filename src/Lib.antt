-- ===== src/Lib.antt =====
-- RustPTA translates a Rust program into a Petri net and looks for concurrency bugs in the net's
-- state graph. This library models the net, its firing rule, its reduction, the two constructions of
-- the state graph, the boundedness check and the deadlock detector.
--
-- How the parts interact. The translation (src/translate) builds a `Net` by `add_place`,
-- `add_transition` and the arc operations. `StateGraph::with_config` explores its markings by
-- `enabled_transitions` and `fire_transition`, and the detectors (src/detect) read the graph. The
-- boundedness check (src/analysis/boundness.rs) explores the markings in the same way, in a tree.
--
-- Files.
--   Prelude         shared names; `Option` as the monad of panics; lists under native indices; Text:
--                   the digits of a number, `str::contains`.
--   Net.IndexVec    src/net/ids.rs and src/net/index_vec.rs. An id is its u32, a vector a list.
--   Net.Structure   src/net/structure.rs: places, transitions, markings; Order: `partial_cmp`, `cmp`.
--   Net.Incidence   src/net/incidence.rs: the matrices; Shape: they stay rectangular.
--   Net.Core        src/net/core.rs: `Net::empty`, `add_place`, `add_transition`, `set_input_weight`,
--                   `set_output_weight`, `add_input_arc`, `add_output_arc`, `enabled_transitions`,
--                   `fire_transition`. Build: construction; Enabled: enabledness; Outcome, Loops and
--                   Fire: firing; Commute, Conserve and Effect (`c_matrix`): consequences of the rule;
--                   Diagnose: `diagnose_connectivity`.
--   Net.Reduce      src/net/reduce. Graph and Materialize: graph.rs; Loops, Sequence and Intermediate:
--                   the three rules; Reducer: mod.rs. InRange, Keeps and Pairwise: what an edit of the
--                   graph keeps; the modules below a rule: that it ends and what it leaves, or, for
--                   Sequence.Diverges, where it does not. Graph.Reads and Graph.Adjacent: `from_net`.
--                   Reducer.Outcome: the stages of a reduction; Accepted and Unchanged: what they give.
--   Analysis.Graph  what src/analysis/reachability.rs uses of petgraph's `StableGraph`, as operations
--                   and laws.
--   Analysis.Snapshot      src/analysis/reachability.rs: `StateNode`, `StateEdge` and what they hold.
--   Analysis.Reachability  src/analysis/reachability.rs: `StateGraph::with_config_standard`. Map: from
--                   markings to nodes; Spec: what a search state should satisfy; Discover,
--                   Connect and Round: each step keeps it; Correct: the finished search; Steps and
--                   Total: it ends.
--   Analysis.Por    src/analysis/reachability.rs: `transitions_are_independent` and
--                   `StateGraph::with_config_por`. Independent: the test; Sound and Correct: what the
--                   graph says; Round: one round; Sets, Steps, Fires and Total: the construction ends.
--   Analysis.Boundness  src/analysis/boundness.rs: the coverability tree; Search: `check`. Spec: what
--                   the tree says; Path, Raise, Attach, Fire and Visit: each step keeps it; Correct:
--                   the check ends with a justified answer; Misses: what it cannot find.
--   Detect          src/detect/deadlock.rs and the structs of its report in src/report/mod.rs. Cycles: the
--                   search for cycles, Close: a cycle, Ends: the recursion; Deadlock: the detector,
--                   Detects: the terminal nodes, Stuck: what they mean for the net, Reports: the report.
--   Examples        a list-based graph that satisfies the laws, a net of two transitions, and runs.
--
-- Conventions. The program is taken with its default features: `inhibitor`, `reset` and
-- `invariants` are off, so their fields and branches are absent. A panic (an index out of bounds,
-- a failed `expect`, a full petgraph index) is `none`; a Rust `Result` is `Result` inside it.
-- Token counts are natural numbers, and each sum of the code is taken modulo 2^64, as in a release
-- build. Ids wrap at 2^32. Strings are opaque, but for the names that the reduction makes up and
-- the test for `main_end`. A hash map or hash set is a list; where the code iterates a hash set
-- and the result may depend on it, the order is a parameter. The detector reads the petgraph of
-- the state graph through a record of what its iterators give.
--
-- Fuel. The loop `while let Some(..) = queue.pop_front()` runs on fuel, one unit for each popped
-- node and one for the empty queue. Without a state limit a net may have infinitely many markings,
-- and the code then does not end either; with a limit the number of nodes, and so the fuel, is
-- bounded. With sleep sets a node is queued again only when its sleep set shrinks, which bounds
-- the rounds too. The removal of loops walks over each place at most once, and each round of the
-- elimination of intermediate places removes a place, so the number of places is fuel enough; the
-- walk along a sequence may not end, and its fuel is an argument. The search for cycles enters
-- each node once, so its depth is at most the number of nodes. The coverability check stops at its
-- own limit; its walks to the root are given one unit more than the index of the node they start
-- from, since a parent has a smaller index.
--
-- Not modelled. The translation from rustc's MIR, the points-to analysis and the call graph stand
-- on types of the compiler; DOT and JSON output, logging, options and the drivers are input and
-- output.
pub mod Prelude
pub mod Net
pub mod Analysis
pub mod Detect
pub mod Examples
