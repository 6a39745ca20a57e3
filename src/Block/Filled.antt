-- ===== src/Block/Filled.antt =====
-- block.rs: the descriptor table after the three descriptors of a request are filled in.
use mina_os.Base.{
  ℕ, ◌+◌, ◌%◌, ◌<◌, ◌≡◌, ◌≢◌, ◌∙◌, Bool, true, false, some, List, arith, length, get_elem?, set,
  length-set, get_elem?-set_self, get_elem?-set_ne,
}
use mina_os.Base.Word.{u16}
use mina_os.Io.{Descriptor, io_ring_size}
use mina_os.Io.Machine.{BlockDevice}
use mina_os.Block.{next_idx, header_desc, data_desc, status_desc, submit}

-- The `k`th index after the device's last one.
abbrev pub ahead : BlockDevice → ℕ → ℕ
ahead bd k = (bd.idx + k) % io_ring_size

abbrev pub filled :
    BlockDevice → List Descriptor → Descriptor → Descriptor → Descriptor → List Descriptor
filled bd ds a b c =
    set
      (set (set ds (ahead bd 1) (record a { next = ahead bd 2 })) (ahead bd 2)
        (record b { next = ahead bd 3 }))
      (ahead bd 3) c

pub length-filled :
    (bd : BlockDevice) (ds : List Descriptor) (a b c : Descriptor)
    → length (filled bd ds a b c) ≡ length ds
length-filled bd ds a b c =
    length-set (set (set ds (ahead bd 1) _) (ahead bd 2) _) (ahead bd 3) c
    ∙ length-set (set ds (ahead bd 1) _) (ahead bd 2) _
    ∙ length-set ds (ahead bd 1) _

module _ (bd : BlockDevice) (small : bd.idx < io_ring_size) where
  next1 : next_idx bd ≡ ahead bd 1
  unfolding next_idx
  next1 = omega arith

  next2 : u16 (next_idx bd + 1) % io_ring_size ≡ ahead bd 2
  unfolding next_idx
  next2 = omega arith

  next3 : u16 (u16 (next_idx bd + 1) % io_ring_size + 1) % io_ring_size ≡ ahead bd 3
  unfolding next_idx
  next3 = omega arith

  pub submit-desc :
      (p buffer size : ℕ) (write : Bool)
      → (submit bd p buffer size write).queue.desc
        ≡ filled bd bd.queue.desc (header_desc p) (data_desc buffer size write) (status_desc p)
  unfolding submit header_desc data_desc status_desc
  submit-desc p buffer size true = rw (next3, next2, next1)
  submit-desc p buffer size false = rw (next3, next2, next1)

  pub submit-avail :
      (p buffer size : ℕ) (write : Bool)
      → let a = bd.queue.avail in
        (submit bd p buffer size write).queue.avail
        ≡ record a { ring = set a.ring (a.idx % io_ring_size) (ahead bd 1); idx = u16 (a.idx + 1) }
  unfolding submit
  submit-avail p buffer size write = rw next1

  pub submit-idx :
      (p buffer size : ℕ) (write : Bool) → (submit bd p buffer size write).idx ≡ ahead bd 3
  unfolding submit
  submit-idx p buffer size write = next3

  module _ (ds : List Descriptor) (a b c : Descriptor) (room : length ds ≡ io_ring_size) where
    pub filled_first :
        get_elem? (filled bd ds a b c) (ahead bd 1) ≡ some (record a { next = ahead bd 2 })
    filled_first =
        get_elem?-set_ne (set (set ds (ahead bd 1) _) (ahead bd 2) _) c (omega arith)
        ∙ get_elem?-set_ne (set ds (ahead bd 1) _) _ (omega arith)
        ∙ get_elem?-set_self ds (ahead bd 1) _ (omega arith)

    pub filled_second :
        get_elem? (filled bd ds a b c) (ahead bd 2) ≡ some (record b { next = ahead bd 3 })
    filled_second =
        get_elem?-set_ne (set (set ds (ahead bd 1) _) (ahead bd 2) _) c (omega arith)
        ∙ get_elem?-set_self (set ds (ahead bd 1) (record a { next = ahead bd 2 })) (ahead bd 2) _
            (omega (arith, length-set ds (ahead bd 1) (record a { next = ahead bd 2 })))

    pub filled_third : get_elem? (filled bd ds a b c) (ahead bd 3) ≡ some c
    filled_third =
        get_elem?-set_self
          (set (set ds (ahead bd 1) (record a { next = ahead bd 2 })) (ahead bd 2)
            (record b { next = ahead bd 3 }))
          (ahead bd 3) c
          (omega (
            arith,
            length-set ds (ahead bd 1) (record a { next = ahead bd 2 }),
            length-set (set ds (ahead bd 1) (record a { next = ahead bd 2 })) (ahead bd 2)
                (record b { next = ahead bd 3 }),
          ))

    pub filled_other :
        (n : ℕ)
        → ahead bd 1 ≢ n
        → ahead bd 2 ≢ n
        → ahead bd 3 ≢ n
        → get_elem? (filled bd ds a b c) n ≡ get_elem? ds n
    filled_other n h1 h2 h3 =
        get_elem?-set_ne (set (set ds (ahead bd 1) _) (ahead bd 2) _) c h3
        ∙ get_elem?-set_ne (set ds (ahead bd 1) _) _ h2
        ∙ get_elem?-set_ne ds _ h1
