-- ===== src/Clients/Larson.antt =====
-- CMA_benchmarks/larson/larson.cpp, as it is built with threads: the random numbers, the blocks that
-- are set up before the threads start, and what each thread does.
pub mod Driver
pub mod Loops
pub mod Lran2
pub mod Rounds
pub mod Serving
pub mod Threads
pub mod Warmup
