-- ===== src/Fs/Process.antt =====
-- minaos/src/fs.rs: reading a file for a process, by a kernel process of its own; and write.
use mina_os.Base.{ℕ, ◌+◌, ◌-◌, Bool, Option, none, some, List, ◌∷◌, ◌==◌, leb, if◌then◌else◌}
use mina_os.Fs.{Inode, get_inode}
use mina_os.Fs.Read.{read}

pub record ProcArgs : Type 0 where
  pub pid : ℕ
  pub dev : ℕ
  pub buffer : ℕ
  pub size : ℕ
  pub offset : ℕ
  pub node : ℕ

-- What is done to processes; `added` is a kernel process that runs `read_proc` on an address.
pub data Event : Type 0 where
  set_waiting : ℕ → Event
  added : ℕ → Event
  set_a0 : ℕ → ℕ → Event
  set_running : ℕ → Event

-- `memory` has the bytes of the buffers, `boxed` is the heap, as far as it holds arguments, and
-- `events` is newest first.
pub record Kernel : Type 0 where
  pub memory : ℕ → ℕ
  pub boxed : ℕ → Option ProcArgs
  pub events : List Event

-- A stub in the source.
unfoldable pub write : Inode → ℕ → ℕ → ℕ → ℕ
write desc buffer offset size = 0

-- `is_process` tells whether `get_by_pid` finds a process; `place` picks the address of a `Box`.
module _ (fetch : ℕ → ℕ → ℕ → List ℕ) (is_process : List Event → ℕ → Bool)
    (place : (ℕ → Option ProcArgs) → ℕ) where
  -- The memory with the buffer at its place.
  abbrev pub stored : ℕ → (ℕ → ℕ) → (ℕ → ℕ) → ℕ → ℕ
  stored buffer dest memory a = if leb buffer a then dest (a - buffer) else memory a

  unfoldable pub finish : ProcArgs → Inode → ℕ → Kernel → Kernel
  unfolding read
  finish args inode args_addr s =
      let (bytes, dest) =
        read (fetch args.dev) inode (λ i. s.memory (args.buffer + i)) args.size args.offset in
      record {
        memory = stored args.buffer dest s.memory;
        boxed = λ a. if a == args_addr then none else s.boxed a;
        events =
            set_running args.pid
            ∷ (if is_process s.events args.pid then set_a0 args.pid bytes ∷ s.events else s.events);
      }

  -- `none` is the panic of `unwrap`, or a read of memory that holds no arguments.
  unfoldable pub read_proc : ℕ → Kernel → Option Kernel
  unfolding finish
  read_proc args_addr s = elim (s.boxed args_addr) [
    | none ↦ none
    | some args ↦ elim (get_inode fetch args.dev args.node) [
      | none ↦ none
      | some inode ↦ some (finish args inode args_addr s)
    ]
  ]

  unfoldable pub process_read : ℕ → ℕ → ℕ → ℕ → ℕ → ℕ → Kernel → Kernel
  process_read pid dev node buffer size offset s =
      let args : ProcArgs = record {
        pid = pid;
        dev = dev;
        buffer = buffer;
        size = size;
        offset = offset;
        node = node;
      } in
      let p = place s.boxed in
      record s {
        boxed = λ a. if a == p then some args else s.boxed a;
        events = added p ∷ set_waiting pid ∷ s.events;
      }
