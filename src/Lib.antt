-- ===== src/Lib.antt =====
-- CPPCourse: the C and C++ programs of the course's exercises, as they stand in content/exercises, and the
-- server and the pages that the course is read, asked about and practised with.
--
--   Server         server.py. Server/Runner is running a solution (run_exercise, run_lkm and
--                  check_qemu_status), with the machine as the parameter `Machine`: which files there are,
--                  and what the compilers, the programs and QEMU come to on the paths that they are given. Server/Routes is do_POST, and
--                  Server/Mentor the stream of the mentor's answer (stream_ollama_chat), with the lines
--                  that Ollama sends as its argument. Server/Paths is about the ids in a request.
--   Web            web. Web/Chat is ai-chat.js, reading that stream: Chat/Cuts and Chat/Delivery are
--                  about texts that are cut into reads, Chat/Actions about single lines, Chat/Arrival and
--                  Chat/Ending about the page and the server together. Web/History is what ai-chat.js
--                  keeps of the chats, with History/Entries and History/Kept about it and
--                  History/Answers about an answer from the server to the storage. Web/Practice is editor.js, with Practice/Grading and
--                  Practice/Modules about the page and the server together, and Practice/Lost about two
--                  windows. Web/Quiz is quiz.js, whose clicks are events: Quiz/Ids has the keys of the
--                  answers, Quiz/Steps what one event changes, Quiz/Answers what counts, Quiz/Counters
--                  what is shown, Quiz/Windows several windows on one storage, and Quiz/Reset the reset.
--                  Web/Frame is app.js, with the answers that the panels wait for as events: the
--                  lecture, the quiz and the status of the mentor. Frame/Loads is about one load,
--                  Frame/Clicks about what is clicked on, and Frame/Orders about the orders they come in.
--
-- A text of the server and the pages is the list of its code points, so encoding to UTF-8 and decoding are
-- the identity; JSON is read and written for the objects that the server sends. The client of the mentor
-- stays connected. The object of a page's storage is the list of its keys whose value is true. The browser
-- is two parameters: `fetch_path` is the path that it asks for when it is given an address, and what is
-- relied on is that it leaves plain characters as they are (`KeepsPlain`); `takes` says whether
-- localStorage takes what is to be stored, or setItem throws. In Web/Quiz it takes all.
--
-- The programs of the exercises are independent of each other: each exercise is one file, and what its
-- functions share are its static objects, or the object that they are called on, which is the state of the
-- model. Paths below are relative to content/exercises, and the file of an exercise is its starter.c or
-- starter.cpp.
--
--   Spi            el5/02-spi-dummy: the NOR flash simulator. `sim_spi_transfer` takes the buffers
--                  as options (NULL) of lists and returns `none` where C would leave a buffer.
--                  Spi/Memory holds its loops, Spi/Transfer one call, Spi/Session sequences of
--                  calls, Spi/RoundTrip programming and reading, Spi/Commands a flash chip as its
--                  driver sees it, Spi/Refine the refinement to it, and Spi/Driver the functions below
--                  the simulator.
--   I2c            el5/01-i2c-dummy: the register simulator, with I2c/Registers the register file it
--                  stands for, I2c/Refine the refinement and I2c/Driver the functions below it.
--   Kernel/Api     the kernel functions that the modules of k1 to k7 and el2 call, as the parameter
--                  `Kernel`, and what the kernel documents of them, as the hypothesis `IsKernel`.
--   Kernel/Device  the tables of handlers, and what a load leaves.
--   Kernel/Client  a program that reads a device in pieces until a read returns 0, as cat(1) does; it is
--                  no part of the repository, and its reads are fuel, more than the text is long.
--   Kernel/*       the modules: CharDevices (k1), MaxTrack, Stack, Queue, Config, PerCpu, SeqLock
--                  (k2/01 to k2/06), Timer, Delayed, Wakeup (k3; Timer has k3/01 too), Slab, Page,
--                  PerCpu (k4), PseudoFs (k5), Netfilter (k6), Probes (k7), Platform (el2). A handler
--                  takes the call and the state of the module and returns the new state and the reply.
--                  Kernel/Modules lists them with `load` and `unload`, all but k2/04, whose load leaves
--                  a configuration too (Kernel/Config/Leak). Kernel/Stages,
--                  Kernel/Lifecycle and Kernel/Ordering are about loading and unloading.
--   Debugging      f4: the programs with defects that the reader is to find, Debugging/Search for
--                  f4/02-gdb-logic and Debugging/Sums for f4/03-overflow-safe,
--                  Debugging/Buffers for f4/01-asan-hunt, Debugging/Table for
--                  f4/04-leak-balance with the allocator of its test.c.
--   Abi            el1/03-abi-struct and f1/06-struct-layout: layouts and byte order.
--   Foundations    f1 but for f1/06, as they stand.
--   Signals        f2/07-signal-handler.
--   Frames         el7/01-socketcan: the CAN frame.
--   SystemCalls    f2/01 to f2/06 and c2/01 to c2/05, as they stand.
--   Processes      f3 and c3, as they stand.
--   Toolchain      el1/01-endian-detect and el1/02-cross-hello.
--   Concurrency    c1. Concurrency/Treiber is 05-treiber-stack: its heap, the calls of `retire` as
--                  machines that take turns, one access to shared memory each (`Turn`, `step`, `run`), and
--                  the destructor. Treiber/Chain has the chains of nodes, Treiber/Invariant the two lists,
--                  Treiber/Turns what a turn does, Treiber/Counts and Treiber/Work a bound on the
--                  turns left, Treiber/Progress the end of the loops, Treiber/Linear the list as if
--                  each call were one step, and Treiber/Destroy what is freed. Concurrency/Counters
--                  is 04-false-sharing, Concurrency/Primitives the queue, the locks and the seqlock,
--                  as they stand.
--   IoUring        c2/06-io-uring-read: `Ring` with what it has mapped; the kernel's answers are the
--                  parameter `Answers`, IoUring/Restores is about giving everything back and
--                  IoUring/Mappings about the entries.
--   Events         c4, as it stands: Events/Timers and Events/Watch.
--   Services       c5, as it stands.
--   Performance    c6: Performance/Counters is 03-false-sharing-pad, Performance/Batcher 04-batch-coalesce,
--                  Performance/Loops the others.
--   Base           numbers, lists, checked accesses, integers, C strings, texts, JSON strings and bit masks.
--
-- How C is read: unsigned values are natural numbers with their wrap-around written out; an `int`
-- operation that overflows, a shift by the width or more, and an access out of an array are `none`.
-- Memory that a module allocates is counted in `live`, so that what it never frees can be stated;
-- whether an allocation succeeds is an argument of the call. A critical section under a lock is one
-- step, since the lock excludes the others; the locks themselves, waiting and waking are not
-- modelled. Atomic accesses happen in one order, whatever memory order the source asks for. A handler
-- whose body the exercise leaves open is modelled as it stands.
--
-- Bounds and fuel: loops are recursions on the rounds that are left, or on the list they walk. The
-- search loop of f4/02 takes fuel, one more than the number of elements, since the interval shrinks by
-- an element or more each round; the word loop of f4/01 takes the length of the text, since each
-- token takes a character or more. The loops of the destructor of c1/05 take fuel, as much as there are
-- nodes on both lists. PAGE_SIZE is 4096.
--
-- Not modelled: io_uring_enter in c2/06 and cpu_pause in c1, which nothing calls; the delete of an
-- object that holds nothing else; the tests; the course's text; in server.py the requests that are got, and the system
-- prompt but for its length; the elements of the pages; the mark in web/app.js that a module is done; the
-- percentages of web/quiz.js, which are computed in floating point; scripts, which call other programs.
pub mod Base
pub mod Spi
pub mod I2c
pub mod Kernel
pub mod Server
pub mod Web
pub mod Debugging
pub mod Abi
pub mod Foundations
pub mod Signals
pub mod Frames
pub mod Concurrency
pub mod IoUring
pub mod Performance
pub mod Events
pub mod Services
pub mod SystemCalls
pub mod Processes
pub mod Toolchain
