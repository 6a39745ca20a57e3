-- ===== src/Block/Process.antt =====
-- minaos/src/block.rs: reading and writing for a process, by a kernel process of its own.
use mina_os.Base.{ℕ, Bool, true, false, Option, none, some, List, ◌∷◌, ◌==◌, if◌then◌else◌}
use mina_os.Io.Machine.{Machine, Request}
use mina_os.Block.{block_op}

pub record ProcArgs : Type 0 where
  pub pid : ℕ
  pub dev : ℕ
  pub buffer : ℕ
  pub size : ℕ
  pub offset : ℕ

-- What a kernel process runs.
pub data Job : Type 0 where
  read_proc_at : ℕ → Job
  write_proc_at : ℕ → Job

-- `boxed` is the heap, as far as it holds arguments; `waiting` has the processes that were set
-- waiting, and `added` the kernel processes that were added, the newest first.
pub record Kernel : Type 0 where
  pub machine : Machine
  pub boxed : ℕ → Option ProcArgs
  pub waiting : List ℕ
  pub added : List Job

-- `kmalloc` and `stale` are those of `block_op`; `place` picks the address of a `Box`.
module _ (kmalloc : (ℕ → Option Request) → ℕ) (stale : ℕ) (place : (ℕ → Option ProcArgs) → ℕ) where
  -- `Box::from_raw`, the operation, and the release of the box.  Where the address holds no
  -- arguments, memory is read that holds nothing.
  unfoldable pub run_op : Bool → ℕ → Kernel → Option Kernel
  unfolding block_op
  run_op write args_addr s = elim (s.boxed args_addr) [
    | none ↦ none
    | some args ↦
        elim (block_op kmalloc stale args.dev args.buffer args.size args.offset write args.pid
          s.machine) [
            | none ↦ none
            | some done ↦ some (record s {
              machine = done.1;
              boxed = λ a. if a == args_addr then none else s.boxed a;
            })
          ]
  ]

  unfoldable pub read_proc : ℕ → Kernel → Option Kernel
  unfolding run_op
  read_proc args_addr s = run_op false args_addr s

  unfoldable pub write_proc : ℕ → Kernel → Option Kernel
  unfolding run_op
  write_proc args_addr s = run_op true args_addr s

  unfoldable pub process_read : ℕ → ℕ → ℕ → ℕ → ℕ → Kernel → Kernel
  process_read pid dev buffer size offset s =
      let args : ProcArgs = record {
        pid = pid;
        dev = dev;
        buffer = buffer;
        size = size;
        offset = offset;
      } in
      let p = place s.boxed in
      record s {
        boxed = λ a. if a == p then some args else s.boxed a;
        waiting = pid ∷ s.waiting;
        added = read_proc_at p ∷ s.added;
      }

  unfoldable pub process_write : ℕ → ℕ → ℕ → ℕ → ℕ → Kernel → Kernel
  process_write pid dev buffer size offset s =
      let args : ProcArgs = record {
        pid = pid;
        dev = dev;
        buffer = buffer;
        size = size;
        offset = offset;
      } in
      let p = place s.boxed in
      record s {
        boxed = λ a. if a == p then some args else s.boxed a;
        waiting = pid ∷ s.waiting;
        added = write_proc_at p ∷ s.added;
      }
