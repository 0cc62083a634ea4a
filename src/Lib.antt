-- ===== src/Lib.antt =====
-- Verification of webgraph-rs (webgraph-rs/ in this repository), the graph library that the partition
-- refinement tools of the repository read and convert their graphs with. What is modelled is the
-- compressed representation of graphs, BvGraph (the compressor, the codes, the sequential decoder,
-- random access and the iterator over outdegrees), the graphs by offsets, by vectors and by lists of
-- arcs, the graphs made from other graphs, and of the algorithms the depth-first visits, the test for
-- cycles, the topological sort, the connected components of symmetric graphs, the sizes of components
-- and the label store of layered label propagation. Paths below are relative to
-- webgraph-rs/webgraph/src unless they start with webgraph-rs/.
--
-- The parts and how they interact. A compressor `BvComp` gets the successor lists of the nodes in
-- order. For each list it tries the lists of the nodes just before as references, writes every attempt
-- to an estimator, and writes the cheapest to the encoder. A decoder reads the nodes in order, and
-- keeps the last lists in a circular buffer, as the compressor does. Random access reads a node at its
-- own position, and follows its chain of references.
--
--   CircularBuffer   utils/circular_buffer.rs: the buffer by node. `take` and `replace` give back the
--                    new buffer next to the value.
--   Codec            graphs/bvgraph/codecs/{mod, enc_const, dec_const}.rs: `Encode` and `Decode` with
--                    constant codes. A trait method `write_<component>` is the constructor
--                    `<component>` of `Component`, and a call of it a pair, `Symbol`.
--   Compressor       graphs/bvgraph/comp/bvcomp.rs, `struct Compressor`: `diff_comp`, `intervalize`,
--                    `compress`, and `write` in Compressor/Write. Compressor/{Blocks, Diff, Runs, Maximal}: lemmas
--                    on the copy blocks and the intervals.
--   CopyList         what a list of copy blocks selects of a reference list, for the theorems.
--   Sequential       graphs/bvgraph/sequential.rs: `get_successors_iter_priv` in parts, and `Iter` in
--                    Sequential/Iter. Sequential/{Stream, CopyTrip, ExtraTrip, RestTrip, Described,
--                    NodeTrip}: each part next to the part of `Compressor::write` that it reads.
--   BvComp           graphs/bvgraph/comp/bvcomp.rs, `struct BvComp`: `new`, `push`, `extend`.
--                    BvComp/{Choice, Search, State, Push, Graph, RoundTrip}: the choice of the reference,
--                    the invariant between two calls of `push`, and whole graphs. BvComp/{Places,
--                    Access}: the positions of the nodes in the stream, for random access.
--   MaskedIterator   graphs/bvgraph/masked_iterator.rs: the iterator over the nodes that are copied.
--                    MaskedIterator/{Yields, New}: it and `CopyList`.
--   RandomAccess     graphs/bvgraph/random_access.rs: `Succ`, and `labels` and `outdegree` in
--                    RandomAccess/Labels. RandomAccess/{Parts, Above, Merge}: the three parts that
--                    `Succ::next` merges. RandomAccess/{PartsTrip, OpenTrip, Opens, Outdegree}: `labels`
--                    next to the part of `Compressor::write` that it reads.
--   CsrGraph         graphs/csr_graph.rs: graphs by offsets. CsrGraph/{Build, Sorted, Access, Lender,
--                    Laws}: the construction, random access, and the lender with a user who leaves
--                    successors.
--   OffsetDegIter    graphs/bvgraph/offset_deg_iter.rs: the iterator over outdegrees.
--                    OffsetDegIter/{Agree, Intervals, Node, Degree, Steps}: it and the sequential
--                    iterator on the same stream.
--   DepthFirst       webgraph-rs/algo/src/visits/depth_first/seq.rs: the visit with predecessors, its
--                    rounds as steps on the stack. DepthFirst/{States, Selectors}: the states of nodes,
--                    as an interface and its two implementations. DepthFirst/{Invariant, Kept,
--                    Distinct, Finish, Rounds, Total}: the invariant of the stack, and whole visits.
--   SeqNoPred        webgraph-rs/algo/src/visits/depth_first/seq.rs: the visit without predecessors.
--   SymmSeq          webgraph-rs/algo/src/sccs/symm_seq.rs: the callback of that visit. SymmSeq/{Invariant,
--                    Rounds, Settled, Total, Components}: the invariant of the stack and of the numbers,
--                    whole visits, and the components that are returned.
--   Acyclicity       webgraph-rs/algo/src/acyclicity.rs: a visit that stops at a cycle. Acyclicity/{Path,
--                    Rounds, Total}: the bits of the visit path, the rounds, and whole visits.
--   TopSort          webgraph-rs/algo/src/top_sort.rs: the callback of the visit. TopSort/Laws.
--   VecGraph         graphs/vec_graph.rs: the mutable graph. VecGraph/{Content, Insert, FromArcs,
--                    Repeated, Lent}: its arcs as a list, and graphs made from arcs and lenders.
--   ArcListGraph     graphs/arc_list_graph.rs: lists of arcs as graphs. ArcListGraph/{Lender, Traverse}.
--   UnionGraph, NoSelfLoopsGraph, PermutedGraph
--                    graphs/{union_graph, no_selfloops_graph, permuted_graph}.rs: graphs made from
--                    others, and what their iterators return.
--   LabelStore       webgraph-rs/algo/src/llp/label_store.rs: labels and volumes. LabelStore/Volumes.
--   Sccs             webgraph-rs/algo/src/sccs/mod.rs: components and their sizes. Sccs/{Sizes, Orders,
--                    Invert, Renumber}: the sizes, lists in decreasing order, and the renumbering.
--   Base             shared types, Boolean tests and lemmas on lists, options and sorting.
--   Tests            witnesses and runs on small graphs, with a unary code for the code library.
--
-- Conventions. `none` is a panic: an index out of range, an unsigned subtraction below 0, a read past
-- the end of a stream. `&mut self` is a state that is taken and given back. A stream is the list of
-- its bits, from the position of the reader on. `usize` and `u64` are natural numbers, and their sums
-- are not reduced modulo 2^64, but for the number of arcs of VecGraph, the current node of
-- ArcListGraph and the volumes of LabelStore; nodes are below 2^63 where a theorem says so. A value of
-- type i64 is its bit pattern, and i64 arithmetic is modulo 2^64.
--
-- Fuel. A round of the loop of `diff_comp` consumes an element of one of the two lists, or changes
-- `copying` before a round that does, so 2 * (|curr| + |ref|) + 2 rounds are enough (Compressor/Diff).
-- The fuel of random access is the depth of the chain of references, each of which goes to an earlier
-- node, so any depth above the node is enough (BvComp/Access). A round of a depth-first visit takes a
-- successor from an iterator, or a frame from the stack, so as many rounds as the graph has nodes and
-- arcs, and one, are enough (`visit_fuel`, DepthFirst/Total, SymmSeq/Settled,
-- Acyclicity/Total). All other loops are on
-- a list or on a number that the code counts down.
--
-- Parameters. dsi-bitstream, which implements the instantaneous codes and the bit streams, is not in
-- this repository. `Codec.CodeLibrary` names what is used of it, with its documented laws: a code word
-- is read back whatever follows it, `len` is the number of bits written, and to_nat and to_int are
-- inverse. Tests/Codes shows an instance. `CsrGraph.SliceLibrary` does the same for value-traits: the
-- value at an index, and an iterator from an index on; Tests/Csr shows the instance for vectors.
-- `DepthFirst.States.BitVec` does it for the bit vectors of sux, with an instance in Tests/Visits.
-- `Sccs.SortUnstable` stands for the unstable sort of the standard library, whose order of equal
-- elements is open; Tests/Components has an instance.
--
-- Not modelled. Failing writers, whose errors are only passed on; the statistics and the debugging
-- codecs; dynamic dispatch to codes; parallel compression, which splits a graph, runs BvComp on each
-- part and joins the files; memory mapping and files, the offsets file among them (the position of a
-- node in the stream is a parameter of random access); the iterators from a node on of BvGraph; the
-- other algorithms of webgraph-rs/algo, and threads that share the label store; the command line tools
-- of webgraph-rs/cli; and everything that is not Rust.
pub mod Base
pub mod CircularBuffer
pub mod Codec
pub mod Compressor
pub mod CopyList
pub mod Sequential
pub mod BvComp
pub mod Acyclicity
pub mod ArcListGraph
pub mod CsrGraph
pub mod DepthFirst
pub mod LabelStore
pub mod MaskedIterator
pub mod NoSelfLoopsGraph
pub mod OffsetDegIter
pub mod PermutedGraph
pub mod RandomAccess
pub mod Sccs
pub mod SeqNoPred
pub mod SymmSeq
pub mod TopSort
pub mod UnionGraph
pub mod VecGraph
pub mod Tests
