-- ===== src/Lib.antt =====
-- flashmob: random walks over large graphs that are cut into partitions. This library models the
-- core of the program, and proves what makes it correct.
--
-- The parts of the program and how they interact. An FMobSolver walks all walkers in epochs. In an
-- epoch it draws a start vertex for each walker and moves all walkers in lock step: a MessageManager
-- lets each thread sort its walkers by the partition of the vertex they stand on, a WalkManager takes
-- the partitions one by one and moves each walker in the block of a partition by one sample of that
-- partition's sampler, and the MessageManager brings each new vertex back to its walker. At the end
-- of an epoch the solver writes one path for each walker.
--
-- Which file models which part:
--   Graph      src/core/graph.hpp: the headers that give the partition of a vertex. Its children are
--              the loops of Graph::load and Graph::make. Graph.Load: ids for the names, degrees
--              and their sums; Graph.Sort: counting_sort; Graph.Partitions: groups and ranges of
--              partitions; Graph.Shuffle: the first partitions dealt out anew; Graph.Sockets: the
--              lists of partitions of the sockets; Graph.Ids: new ids, names and bounds of degrees;
--              Graph.Edges: adjacency lists; Graph.Query: prepare_neighbor_query and has_neighbor
--   Message    src/core/message.hpp, MessageTask: prepare, shuffle, update
--   Manager    src/core/message.hpp, MessageManager: shuffle_messages is its shuffle,
--              update_messages its update; walk_round is one round of FMobSolver::walk
--   Walk       src/core/walk.hpp, the static walk: walk_message, walk; Walk.Schedule is how the
--              threads of a socket share its partitions, Walk.Node2vec is node2vec_accept
--   Sampler    src/core/sampler.hpp: the sampler with buffers, the direct and the uniform one;
--              Sampler.Similar is the one with hints, Sampler.Manager chooses one for each
--              partition, Sampler.Dispatch holds the samplers of all partitions
--   Threads    include/type.hpp: where a thread lies; include/util.hpp: powers of two
--   Random     include/random.hpp: gen of XorRandGen and MulRandGen
--   Walkers    src/core/walker.hpp, WalkerManager::init, and MessageManager::init;
--              Walkers.Process is process_walkers, each turn one operation of a thread on shared data:
--              the read of a status, an atomic addition, a call of process, the store of a status
--   Solver     src/core/solver.hpp: walk_epoch is FMobSolver::walk, walk_epochs the loop of walk;
--              both calls of process_walkers in an epoch go through Walkers.Process
--   Partition  src/core/partition.hpp: estimate_epoch_walker; Partition.Plan is the dynamic program
--              of dp, over times that are a parameter with the laws of Partition.Plan.Best.IsTimes
--   Memory     include/memory.hpp: MemoryCounter, Memory, MemoryPool::alloc
--   Bloom      include/hash.hpp: BloomFilter
--   Prelude    shared names: numbers, Boolean tests, counted loops, bits, machine words
--   Examples   the library at concrete inputs
--
-- How code becomes definitions. State is a record that the operations take and return. An array is a
-- function of the index, and a write changes it at one index. A counted loop is for_range. Numbers
-- are natural numbers, with the wrap-around of 16, 32 and 64 bits written out. A CHECK that fails is
-- none. Where the threads of a parallel loop work on data of their own they run one after another.
-- Where they share counters their order is a parameter: the turns of the threads in process_walkers,
-- the order in which the ends of the edges are appended, and the order in which partitions are taken,
-- any that takes each once. The results of mmap and munmap are parameters, which are to succeed. The
-- random generator is a parameter that promises a number below its bound.
--
-- Fuel. BloomFilter::cal_hash_table_capacity doubles its capacity at most 62 times before it passes
-- a quarter of a 64-bit number, so 64 rounds are enough. The loop of value2bit halves a 32-bit
-- number, at most 31 times. The loop over the epochs takes at least one walker in each round, so as
-- many rounds as walkers are enough. A thread ends process_walkers after at most as many turns as
-- enough_turns says, and the epochs ask for schedules that give each thread so many. The loop over
-- the partitions of a group goes on by a vertex at least, and a round of the dealing in Graph.Shuffle
-- deals out a unit at least, so the number of vertices is enough for both.
--
-- Not modelled: the loop of node2vec walks, reading files, the floating-point estimates of the
-- candidates that the dynamic program chooses from, options, logging, profiling, and other calls
-- to the operating system.
pub mod Prelude
pub mod Graph
pub mod Message
pub mod Walk
pub mod Manager
pub mod Memory
pub mod Bloom
pub mod Sampler
pub mod Threads
pub mod Random
pub mod Walkers
pub mod Partition
pub mod Solver
pub mod Examples
