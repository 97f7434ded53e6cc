-- ===== src/Lib.antt =====
-- The distributed graph database of graphlab: vertices and edges with typed rows, kept by shards; and
-- some of the data structures beside it: a lock manager, a priority queue, a byte buffer, bitsets
-- and small sets.
--
-- Parts, and where they are modelled (paths from the repository's root):
--   Eid        src/graphlab/database/basic_types.hpp: edge ids and data types.
--   Value      src/graphlab/database/graph_value.hpp, .cpp: one field of a row. Run is the result of
--              code that can fail an assertion or have undefined behaviour.
--   Row        src/graphlab/database/graph_field.hpp, graph_row.hpp, .cpp: schema and rows. The implicit
--              operator= of a row assigns the values that are there with operator= of a value, which
--              can be undefined behaviour; the vector is taken to have room for the new ones. A row is
--              valid if its values are well-formed and its null values hold nothing, as init makes
--              them.
--   Shard      src/graphlab/database/graph_shard.hpp, graph_shard_impl.hpp, .cpp, graph_edge_index.hpp,
--              graph_vertex_index.hpp: the arrays of a shard with the indexes on them.
--   Server     src/graphlab/database/server/graph_shard_server.hpp, .cpp, graph_database.hpp, errno.hpp:
--              the methods of the server of one shard, on a shard and the two schemas. Server/Batch has
--              the methods on lists, Server/History the servers that calls reach.
--   Placement  src/graphlab/database/graph_shard_manager.hpp, .cpp: which shard keeps a vertex or an edge,
--              with the grid of shards that limits where the edges of a vertex can be.
--   Message    src/graphlab/database/query_message.hpp, .cpp: messages as sequences of typed values.
--              Rows go through save and load of their values, which drop what a null value holds; other
--              values come out as they went in.
--   Dispatch   src/graphlab/database/server/graphdb_server.cpp: a message is handed to the shard server
--              and answered.
--   Client     src/graphlab/database/client/graphdb_client.cpp, graphdb_query_object.hpp, .cpp: requests to
--              the shards that Placement names, over the network of Client/Network, an interface with
--              what libfault promises: a message to a server that is up is processed there once, and
--              its reply comes back.
--   ChandyMisra         src/graphlab/util/chandy_misra.hpp: locks on the neighborhoods of a graph, as the
--              forks of dining philosophers. ChandyMisra/Schedule runs overlapping calls of
--              make_philosopher_hungry and philosopher_stops_eating: a step is the section of one call
--              between two points where a spinlock may be released.
--   MutableQueue        src/graphlab/util/mutable_queue.hpp: a priority queue as a heap with an index map.
--   CircularCharBuffer  src/graphlab/util/circular_char_buffer.hpp, .cpp: a ring of bytes that grows.
--   DenseBitset         src/graphlab/util/dense_bitset.hpp: the class dense_bitset, bits in 64-bit words.
--              DenseBitset/Search has its searches, the iterator and popcount, DenseBitset/Algebra the
--              operators, DenseBitset/Transfer the call that moves words to another bitset.
--   FixedDenseBitset    src/graphlab/util/dense_bitset.hpp: the class fixed_dense_bitset.
--   SmallSet            src/graphlab/util/small_set.hpp: a sorted array of bounded size, for numbers
--              with std::less.
--   Prelude    what the parts share: lists on native numbers, Boolean tests, Run, functions as vectors.
--   Examples   concrete inputs.
-- A method that changes its object returns the changed object next to its result; an out parameter is
-- passed in and returned. A NULL pointer is none, and a pointer into an array is its position.
--
-- The loops run over lists or count up, so recursion is structural. Some loops take fuel: the column
-- loop of the grid one more than the number of shards, which is enough as each step moves ahead by the
-- number of columns, which is not 0; the loops of the priority queue the index that rises, or the size
-- of the heap for one that sinks; the loop over a bitset one more than its bits; and the loop that
-- moves words between bitsets one more than the words, which is enough where it ends after one round.
-- Machine integers are native numbers with the wrap-around written out: local edge ids have 32 bits,
-- so that properties of add_edge ask for less than 2^32 edges. The sums of doubles and
-- boost::lexical_cast are parameters (Value/Typed.Scalars), and so are sqrt, the hashes of ids, the
-- network, what realloc leaves in new words of a bitset, and the graph that ChandyMisra locks, with
-- laws on its lists of edges. Vectors and arrays are functions of the index, read in range. Hash maps
-- of boost are functions into options.
--
-- Not modelled: the bytes in archives, logging, memory allocation failures, threads other than the
-- overlapping calls of ChandyMisra; cancel_eating_philosopher is a method there but not a step of a
-- schedule, since it can make neighbors eat together and drop a request. The atomic instructions of a
-- bitset are single steps. Requests of the client are answered before the next one is sent, and its
-- batches are left out. Small sets are sets of numbers, without the insertion of ranges and the
-- conversions from std::set; the other operand of + has at most the room of this set, as operator+
-- does not compile for a larger one.
pub mod Prelude
pub mod Eid
pub mod Value
pub mod Row
pub mod Shard
pub mod Server
pub mod Placement
pub mod Message
pub mod Dispatch
pub mod Client
pub mod ChandyMisra
pub mod MutableQueue
pub mod CircularCharBuffer
pub mod DenseBitset
pub mod FixedDenseBitset
pub mod SmallSet
pub mod Examples
