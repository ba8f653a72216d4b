-- ===== src/Examples.antt =====
-- The library at concrete inputs: a graph of four vertices in two partitions, walked by four
-- walkers on two threads.
mod Data
mod Team
mod Sorting
mod Walking
mod Sampling
mod Threads
mod Storage
mod Graphs
mod Planning
mod Similar
mod Query
