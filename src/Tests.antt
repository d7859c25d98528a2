-- ===== src/Tests.antt =====
-- A kernel that meets the assumptions, runs of the code on it, and the theorems at concrete states.
mod Aligned
mod Big
mod Clients
mod Exhausted
mod Family
mod Kernel
mod Larson
mod Retries
mod Runs
mod States
mod Strings
mod Theorems
mod Threads
