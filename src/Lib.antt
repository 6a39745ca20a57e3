-- ===== src/Lib.antt =====
-- MinaOS: an operating system kernel for RISC-V (minaos/src) and the dynamic Honey Badger consensus
-- (consensus/bft/honey_badger).  This library models parts of both and proves what makes them
-- correct.
--
-- The kernel takes typed bytes from the serial port (uart.rs) into the console (console.rs), which
-- wakes the processes that wait for a line.  It finds its devices on a range of memory-mapped
-- slots (osroutines.rs), sets up the block devices among them (block.rs), and reads files of a
-- Minix file system through a block device (fs.rs).  Traps of a process end in trap.rs, and
-- buffer.rs owns bytes of the heap.  The consensus collects signed votes on changes of the network
-- (votes.rs), runs a distributed key generation for a change that has won, and turns the batches of
-- Honey Badger into its own (dynamic_honey_badger.rs, batch.rs), era by era; a new node joins after a
-- batch by its plan.
--
-- The files:
--   Base          shared names; Base/Tests has ltb, leb and ==, Base/Lists the lists over the native
--                 numbers, Base/Word the machine's words and bytes, Base/BTreeMap an ordered map as a
--                 sorted association list.
--   Fs            minaos/src/fs.rs: SuperBlock, Inode, FileSystem::get_inode.  Fs/Read has
--                 FileSystem::read: `advance` is the copy of one zone, `visit` a round of a loop,
--                 `single`, `double` and `triple` the loops behind zones 7, 8 and 9.  Fs/Cache has
--                 cache_at, init and open (`open_file`), and Fs/Process read_proc and process_read.
--                 Fs/Content, Fs/Range, Fs/Slots, Fs/Listing and Fs/Service have the proofs.
--   Io            minaos/src/osroutines.rs: registers, status bits, rings.  Io/Machine has the state
--                 of the drivers: the two device tables, the requests on the heap, and the accesses
--                 to registers so far.  Io/Layout has the struct MmioDevice.
--   Block         minaos/src/block.rs: setup_block_device, fill_next_descriptor, block_op, read,
--                 write, pending and handle_interrupt.  Block/Process has the calls of kernel
--                 processes, and Block/Config the structs and numbers that are only declared.
--                 Block/Filled, Block/Chain, Block/Pending, Block/Fuel, Block/Setup,
--                 Block/Outcomes, Block/Service and Block/Bounds have the proofs.
--   Probe         minaos/src/osroutines.rs: probe and handle_interrupt.  Probe/Slots has the proofs.
--   Console       minaos/src/console.rs, all of it.  Console/Fifo and Console/Wake have the proofs.
--   Uart          minaos/src/uart.rs, all of it.  Uart/Divisor has the control registers of a
--                 port of the 16550 family, and Uart/Input the interrupt.
--   Trap          minaos/src/trap.rs.  Trap/Faults and Trap/Switch have the proofs.
--   Buffer        minaos/src/buffer.rs (`total_len` is `len` there).  Buffer/Clone has the proofs.
--   HoneyBadger   consensus/bft/honey_badger.  HoneyBadger/Deps has what the code imports,
--                 HoneyBadger/Votes the VoteCounter of votes.rs (`sign_vote_for` is `sing_vote_for`
--                 there), and its child modules the proofs.
--                 Votes/Scenario has the unit tests of votes.rs as functions.
--                 HoneyBadger/KeyGen has the key generation messages of dynamic_honey_badger.rs
--                 and mod.rs: KeyGen/Era and KeyGen/Count have the proofs.
--                 HoneyBadger/Voting has vote_for, vote_to_add and vote_to_remove.
--                 HoneyBadger/Batch has batch.rs and the JoinPlan of mod.rs, HoneyBadger/Engine what
--                 the code calls of Honey Badger, of SyncKeyGen and of the crate's Step, and
--                 HoneyBadger/Exec the methods that change a node and return a Result, with the
--                 rules for what they keep; Exec/Agree has rules for two runs side by side.
--                 HoneyBadger/Dynamic has the restarts and the key generation of
--                 dynamic_honey_badger.rs, Dynamic/Output process_output, Dynamic/Calls the calls
--                 from outside, Dynamic/Joining new and new_joining, and Dynamic/Views the
--                 getters. Votes/Public, Dynamic/Alike, the files of Dynamic/Output that begin
--                 with Alike, and Dynamic/Calls/Agreement and Prefix with the files that it uses, compare two
--                 nodes that share what is public. HoneyBadger/Builder is builder.rs.
-- The files named Tests run the code on small inputs.
--
-- The reading of the source.  The source does not compile as it stands: names are misspelled and
-- some brackets are missing; the model takes the name that is meant.  It keeps the control flow as
-- written: a statement `Ok(...);` with no `return` drops its value and goes on.  A block that ends in
-- a value which nothing takes, as `{ false }` after an `if` without `else`, returns it.  Words are
-- natural numbers with the wrap-around written out.  A register reads a value that is any function
-- of the accesses before it.  A panic, an index out of range and a read of memory that holds
-- nothing are `none`.
--
-- Parameters, since their code is not in the repository: syscall_block_read, kmalloc, kfree, zalloc
-- and memcpy, the scheduler, the processes and the timer, PAGE_SIZE, the drivers of rng, gpu and
-- input, the keys and signatures of `crypto`, the serialization of bincode, FaultLog, and
-- util::max_faulty.  The modules change and error of the consensus are missing too: Deps has the
-- constructors that the code uses.  SyncKeyGen, NetworkInfo, HoneyBadger and the crate's Step are the
-- parameters of KeyGen and Engine.  What theorems ask of them beyond that is in records: Works in
-- Dynamic/Returns (no call of them fails), Synchronous in Dynamic/Alike (key generations that have
-- handled the same messages agree), and Steady in Dynamic/Calls/Events (Honey Badger keeps its
-- network and parameters).
--
-- The allocators are taken to succeed: an address that they return is not compared with null, as the
-- code does not either.  For which numbers get_by_pid finds a process is part of the state of the
-- drivers.  The line of `open` in fs.rs that looks a path up is missing, and is a parameter too.
--
-- Fuel: block.rs `pending` runs while two counters of 16 bits differ, and one of them is counted up
-- in each round.  `handle_interrupt` gives it 2 ^ 16 rounds, one more than the counters can be
-- apart.  The depth of the loops of `read` is fixed, and they run over lists.
-- The fuel of `cache_at` bounds the depth of the directories, since the code follows whatever a
-- disk holds: its theorem has fuel for the depth of the disk's tree.
--
-- Not modelled: printing, the assembly, and the scheduling of kernel processes.  The padding of
-- Queue is left out, since no code reads it.
pub mod Base
pub mod Fs
pub mod Io
pub mod Block
pub mod Probe
pub mod Console
pub mod Uart
pub mod Trap
pub mod Buffer
pub mod HoneyBadger
