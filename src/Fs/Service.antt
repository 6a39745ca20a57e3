-- ===== src/Fs/Service.antt =====
-- fs.rs: a process's read of a file, from the call to the wake-up.
use mina_os.Base.{
  ℕ, ◌+◌, ◌-◌, ◌*◌, ◌^◌, ◌<◌, ◌≡◌, refl, ap, Bool, true, ◌&&◌, Option, none, some, List, ◌∷◌, arith,
  leb, ltb, if◌then◌else◌, length, min, ==_iff, Bool-cases, inl, inr,
}
use mina_os.Base.Word.{byte_at}
use mina_os.Fs.{Inode, get_inode, block_size}
use mina_os.Fs.Read.{read}
use mina_os.Fs.Content.{data_zones, content}
use mina_os.Fs.Range.{read-Copied}
use mina_os.Fs.Process.{
  ProcArgs, Event, set_waiting, added, set_a0, set_running, Kernel, stored, finish, read_proc,
  process_read,
}

module _ (fetch : ℕ → ℕ → ℕ → List ℕ) (is_process : List Event → ℕ → Bool)
    (place : (ℕ → Option ProcArgs) → ℕ) (pid dev node buffer size offset : ℕ) (inode : Inode)
    (delivers : (n at : ℕ) → length (fetch dev n at) ≡ n) (small : size < 2 ^ 32) where
  -- How many bytes the file has for the call.
  abbrev pub available : ℕ
  available =
      min (min size inode.size) (block_size * length (data_zones (fetch dev) inode) - offset)

  -- The state after the read: the file's bytes are in the buffer, every other byte is as it was,
  -- the arguments are freed, and the process runs with the count in its return register.
  pub record Served (s s' : Kernel) : Type 0 where
    pub memory :
        (a : ℕ)
        → s'.memory a ≡ (
            if leb buffer a && ltb (a - buffer) available
            then byte_at
                (content (fetch dev) (data_zones (fetch dev) inode))
                (offset + (a - buffer))
            else s.memory a)
    pub boxed : s'.boxed (place s.boxed) ≡ none
    pub events :
        s'.events
        ≡ set_running pid
          ∷ set_a0 pid available
          ∷ added (place s.boxed)
          ∷ set_waiting pid
          ∷ s.events

  -- The buffer before the read, by offset.
  abbrev before : Kernel → ℕ → ℕ
  before s i = s.memory (buffer + i)

  behind : (a : ℕ) → leb buffer a ≡ true → buffer + (a - buffer) ≡ a
  behind a t = ground arith

  stored_lem :
      (s : Kernel) (a : ℕ)
      → stored fetch is_process place buffer
          (read (fetch dev) inode (before s) size offset).1
          s.memory
          a
        ≡ (if leb buffer a && ltb (a - buffer) available
            then byte_at
                (content (fetch dev) (data_zones (fetch dev) inode))
                (offset + (a - buffer))
            else s.memory a)
  stored_lem s a =
      let copied = read-Copied (fetch dev) inode (before s) size offset delivers small in
      elim (Bool-cases (leb buffer a)) [
        | inr f ↦ rw f refl
        | inl t ↦
            rw (t, copied.1 (a - buffer), copied.0)
              (ap
                (λ i.
                  if ltb (a - buffer) available
                  then byte_at (content (fetch dev) (data_zones (fetch dev) inode))
                      (offset + (a - buffer))
                  else s.memory i)
                (behind a t))
      ]

  -- Where every block read fills its buffer, the size is below 2 ^ 32, the inode is found and the
  -- process still exists, a process that asks for a read is set waiting, and the kernel process that
  -- its call adds does not panic: it puts the bytes of the file's zones behind the offset, as many
  -- as the size, the file's size and the zones allow, into the process's buffer and leaves every
  -- other byte, frees its arguments, and sets the process running with the count in its return
  -- register.
  pub process_read-Served :
      (s : Kernel)
      → get_inode fetch dev node ≡ some inode
      → is_process (added (place s.boxed) ∷ set_waiting pid ∷ s.events) pid ≡ true
      → (s' : Kernel) × (read_proc fetch is_process place
            (place s.boxed)
            (process_read fetch is_process place pid dev node buffer size offset s)
          ≡ some s')
        × Served s s'
  unfolding process_read read_proc finish
  process_read-Served s found alive = (
    finish fetch is_process place
        (record {
          pid = pid;
          dev = dev;
          buffer = buffer;
          size = size;
          offset = offset;
          node = node;
        })
        inode (place s.boxed)
        (process_read fetch is_process place pid dev node buffer size offset s),
    rw ((==_iff (place s.boxed) (place s.boxed)).1 refl, found, read_proc) refl,
    record {
      memory = λ a. stored_lem s a;
      boxed = ground arith;
      events =
          rw (alive, (read-Copied (fetch dev) inode (before s) size offset delivers small).0) refl;
    },
  )
