-- ===== src/Lib.antt =====
-- nuaf: an allocator that never uses a virtual page again once an object of it has been freed.
--
-- The program. allocator.c keeps two regions of virtual pages, one for small objects from 2^32 up to
-- high_vaddr and one for large objects from 0xFFFF000000 up to large_obj_next_page, and hands both out
-- upwards only. freelist.c keeps, for each of the eight sizes 16, 32, ..., 2048 of small objects, a
-- stack of freed objects, threaded through their first eight bytes, and the place to carve the next
-- object from. xxfree moves the page of a small object to a fresh address by mremap and pushes the
-- object at its new address, so the old address faults from then on; a large object is unmapped.
-- wrapper.h defines malloc, free and their family over xxmalloc, xxfree and xxmalloc_usable_size.
--
-- The files.
--   Prelude, Prelude/*    names of the library passed on, tests on numbers, powers of two
--   Memory, Memory/*      the bytes of the address space, which pages are mapped, reads and writes of
--                         one, four and eight bytes in little-endian order
--   Words, Words/*        arithmetic of size_t modulo 2^64; ROUND_UP and ROUND_DOWN of freelist.h
--                         (Rounding); bit masks of memalign (Masks, PowerTest)
--   System                the system calls, as parameters with the laws of their manual pages
--   Process, Process/*    the globals of allocator.c and freelist.c with the address space as one record;
--                         `Run` is how a call ends: with a value, by exit, by SIGSEGV, blocked at a
--                         mutex, in an endless loop, or undefined; `Cmd` is a computation on the state
--   Freelist, Freelist/*  freelist.c: freelist_init, freelist_push, freelist_pop; which block type a
--                         size gets, and where objects lie in their pages
--   Allocator             allocator.c: init_mem, xxmalloc_big, xxmalloc, get_obj_start, xxfree,
--                         xxmalloc_usable_size, xxmalloc_lock and xxmalloc_unlock
--   Allocator/*           the size and the start that interior pointers give; how the loop around mremap
--                         ends
--   Ownership             who owns each page, which no code computes, and the invariant: what the
--                         state and the bytes must be for pages that are unused, hold an object of the
--                         program, hold an object that was freed and moved there, are retired, or are one of the
--                         pages of a large object
--   Safety/*              the operations on states of the invariant, small objects (Carve, Reuse,
--                         Malloc, Retire, Moved, Free), large ones (Big, BigMalloc, Walk, BigFree),
--                         stores of the program (Use, UseBig), sequences of calls (Steps, Trace), what a
--                         retry of mremap does (Neighbours), the end of the small region (Exhausted),
--                         and the two mutexes (Locks); Kept is what a call leaves of the other
--                         objects, Files how far the data file is used, Remapped the page that an
--                         owned object can leave
--   Threads, Threads/*    allocator.c as several threads run it: the place where a thread stands (Pc), its
--                         next step (advance), a mutex and who holds it (Mutex), all threads with the
--                         pages they own (World), their invariant (Safe), the steps (Locking, Small,
--                         Large, Turns, Moves), rest and waiting (Quiet, Waiting), and what every
--                         order of them comes to (Trace)
--   Libc                  memset, memcpy and the string functions that wrapper.h calls, byte by byte
--   Wrapper, Wrapper/*    wrapper.h over a record of the three functions it wants, and calloc, realloc,
--                         strdup, strndup and memalign of small sizes on the allocator
--   Clients, Clients/*    programs of CMA_benchmarks/ on the malloc family: phong/phong.c (Phong),
--                         larson/larson.cpp (Larson), cache-scratch (Scratch), cache-thrash (Thrash),
--                         threadtest (ThreadTest), linux-scalability (Scalability) and its
--                         ptbarrier.h (Barrier); Thrash/Rounds, Larson/Rounds, Larson/Warmup/Blocks
--                         and Larson/Driver/Blocks run them on the allocator, and Larson/Serving is
--                         what a thread of larson holds there
--   Tests/*               a kernel that meets the laws, runs of the code, and the theorems at the
--                         states of these runs
--
-- Correspondence. A definition has the name of the C function or macro that it models, and a piece of
-- a function that stands alone says which piece it is. intptr_t, size_t, off_t and pointers are natural
-- numbers; sums, differences and products of them wrap at 2^64 where the C type does, except that the
-- offset into the file, an off_t, is not wrapped. A failed call of the system is `none`. perror and
-- fprintf write to stderr only and are left out. An access past the end of a mapped file, which raises
-- SIGBUS, is the same result as one at an unmapped address. In Clients, a product of two ints that an
-- int does not hold is undefined.
--
-- Bounds and fuel. ceil(log2(n)) of freelist.c is on floating point in the code and is the least
-- exponent of a power of two that is at least n here; 64 rounds reach every size_t. The walk over pages
-- in get_obj_start and xxmalloc_usable_size has 2^52 rounds, one for each page of the address space, so
-- a walk that uses them up has come back to where it began and would never end. The loop around mremap
-- has 99 rounds, as i runs from 1 below 100. strlen and strcpy have 2^64 rounds, one for each address. The
-- loop of phong that picks a size has as many rounds as the length that it picks from, which falls
-- from round to round.
--
-- The kernel. IsLawful in System is what the manual pages say of the calls that succeed: where a mapping
-- stands, what it holds, that a page of a file can be accessed where its offset lies before the end of
-- the file and not past it, and what each call leaves as it was. Remaps is more: a mapped page can always
-- be moved to another page of the first 2^47 bytes. The theorems that need a free to succeed, those of
-- realloc, memalign, larson and cache-thrash, have it as a hypothesis, and those of xxfree and of the
-- threads have that of the call in question.
--
-- Threads. A mutex is a flag, and a call that locks a held one is blocked. In Threads each lock and each
-- unlock is a step of its own, and so is the code between two of them, which touches nothing that another
-- thread changes meanwhile but num_mappings. A program there frees an object once, and only what it owns.
--
-- Not modelled. The race of two threads that both find the allocator not started, and that of
-- num_mappings. destroy_mem, which closes the file at exit. A fault is the result `segv` of a run, at which
-- sigsegv_handler, or the default action of SIGBUS, ends the process. In wrapper.h, what is compiled
-- only for Windows, macOS or FreeBSD; getcwd of the C library is a parameter. Of the benchmarks, starting threads and the printed
-- statistics, most of which are floating point; the headers in common/, which wrap threads and clocks
-- of many systems. test/ and the scripts.
pub mod Prelude
pub mod Memory
pub mod Words
pub mod System
pub mod Process
pub mod Freelist
pub mod Allocator
pub mod Ownership
pub mod Libc
pub mod Wrapper
pub mod Clients
pub mod Safety
pub mod Threads
pub mod Tests
