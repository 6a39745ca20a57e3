-- ===== src/Block/Chain.antt =====
-- block.rs: the chain of descriptors that `block_op` hands to the device.
use mina_os.Base.{
  ℕ, zero, suc, ◌+◌, ◌%◌, ◌^◌, ◌<◌, ◌≡◌, ◌≢◌, refl, ap, ◌∙◌, Bool, true, false, none, some, List,
  [], ◌∷◌, arith, if◌then◌else◌, length, get_elem?, length-set, get_elem?-set_self,
}
use mina_os.Base.Word.{has_bit}
use mina_os.Io.{Descriptor, io_ring_size}
use mina_os.Io.Machine.{BlockDevice, Used}
use mina_os.Block.{header_desc, data_desc, status_desc, submit}
use mina_os.Block.Filled.{
  ahead, length-filled, submit-desc, submit-avail, submit-idx, filled_first, filled_second,
  filled_third, filled_other,
}

-- The descriptors that a device reads from index `i` on, following `next` while the flag says so.
pub walk : ℕ → List Descriptor → ℕ → List Descriptor
walk zero ds i = []
walk (suc n) ds i = elim (get_elem? ds i) [
  | none ↦ []
  | some d ↦ if has_bit d.flags 0 then d ∷ walk n ds d.next else d ∷ []
]

-- The indices of a device stay inside its rings.
pub record IsValid (bd : BlockDevice) : Type 0 where
  pub descs : length bd.queue.desc ≡ io_ring_size
  pub ring : length bd.queue.avail.ring ≡ io_ring_size
  pub idx_in : bd.idx < io_ring_size
  pub avail_in : bd.queue.avail.idx < 2 ^ 16
  pub ack_in : bd.ack_used_idx < 2 ^ 16
  pub used_in : bd.queue.used.idx < 2 ^ 16

walk_one :
    (n : ℕ) (ds : List Descriptor) (i : ℕ) (a : Descriptor)
    → get_elem? ds i ≡ some a
    → walk (suc n) ds i ≡ (if has_bit a.flags 0 then a ∷ walk n ds a.next else a ∷ [])
unfolding walk
walk_one n ds i a h = rw (h, walk)

walk_three :
    (n : ℕ) (ds : List Descriptor) (i : ℕ) (a b c : Descriptor)
    → get_elem? ds i ≡ some a
    → has_bit a.flags 0 ≡ true
    → get_elem? ds a.next ≡ some b
    → has_bit b.flags 0 ≡ true
    → get_elem? ds b.next ≡ some c
    → has_bit c.flags 0 ≡ false
    → walk (suc (suc (suc n))) ds i ≡ a ∷ b ∷ c ∷ []
walk_three n ds i a b c ha fa hb fb hc fc = rw (
  walk_one (suc (suc n)) ds i a ha,
  fa,
  walk_one (suc n) ds a.next b hb,
  fb,
  walk_one n ds b.next c hc,
  fc,
)

has_bit-data_desc :
    (buffer size : ℕ) (write : Bool) → has_bit (data_desc buffer size write).flags 0 ≡ true
unfolding data_desc
has_bit-data_desc buffer size true = refl
has_bit-data_desc buffer size false = refl

pub submit-rest :
    (bd : BlockDevice) (p buffer size : ℕ) (write : Bool)
    → let bd' = submit bd p buffer size write in
      (bd'.ack_used_idx ≡ bd.ack_used_idx) × (bd'.queue.used ≡ bd.queue.used)
unfolding submit
submit-rest bd p buffer size write = (refl, refl)

pub submit-IsValid :
    (bd : BlockDevice) (p buffer size : ℕ) (write : Bool)
    → IsValid bd
    → IsValid (submit bd p buffer size write)
submit-IsValid bd p buffer size write v = record {
  descs = rw (submit-desc bd v.idx_in p buffer size write) (
      length-filled bd bd.queue.desc (header_desc p) (data_desc buffer size write) (status_desc p)
      ∙ v.descs);
  ring =
      rw (submit-avail bd v.idx_in p buffer size write)
        (length-set bd.queue.avail.ring _ (ahead bd 1) ∙ v.ring);
  idx_in = rw (submit-idx bd v.idx_in p buffer size write) (omega arith);
  avail_in = rw (submit-avail bd v.idx_in p buffer size write) (omega arith);
  ack_in = rw (submit-rest bd p buffer size write).0 v.ack_in;
  used_in = rw (ap (λ (u : Used). u.idx) (submit-rest bd p buffer size write).1) v.used_in;
}

-- The first descriptor of a submitted request leads back to it.
pub submit-head :
    (bd : BlockDevice) (p buffer size : ℕ) (write : Bool)
    → IsValid bd
    → get_elem? (submit bd p buffer size write).queue.desc (ahead bd 1)
      ≡ some (record (header_desc p) { next = ahead bd 2 })
submit-head bd p buffer size write v = rw (submit-desc bd v.idx_in p buffer size write) (
    filled_first bd v.idx_in bd.queue.desc (header_desc p) (data_desc buffer size write)
      (status_desc p) v.descs)

-- After a request at `p` is submitted to a valid device, the device that takes the newly available
-- entry and follows its chain reads three descriptors: the request's header, the caller's buffer,
-- which the device may write in a read only, and the request's status byte.  One entry is added to
-- the available ring, every other descriptor is kept, and the device stays valid.
pub submit_lem :
    (bd : BlockDevice) (p buffer size : ℕ) (write : Bool)
    → IsValid bd
    → let bd' = submit bd p buffer size write in
      let head = get_elem? bd'.queue.avail.ring (bd.queue.avail.idx % io_ring_size) in
      (head ≡ some (ahead bd 1))
      × (walk io_ring_size bd'.queue.desc (ahead bd 1)
          ≡ record (header_desc p) { next = ahead bd 2 }
            ∷ record (data_desc buffer size write) { next = ahead bd 3 }
            ∷ status_desc p
            ∷ [])
      × (bd'.queue.avail.idx ≡ (bd.queue.avail.idx + 1) % 2 ^ 16)
      × ((n : ℕ)
          → ahead bd 1 ≢ n
          → ahead bd 2 ≢ n
          → ahead bd 3 ≢ n
          → get_elem? bd'.queue.desc n ≡ get_elem? bd.queue.desc n)
      × IsValid bd'
submit_lem bd p buffer size write v = (
  rw (submit-avail bd v.idx_in p buffer size write)
      (get_elem?-set_self bd.queue.avail.ring _ (ahead bd 1) (omega arith)),
  rw (submit-desc bd v.idx_in p buffer size write) (
      walk_three 125 _ (ahead bd 1) (record a { next = ahead bd 2 })
        (record b { next = ahead bd 3 }) c (filled_first bd v.idx_in bd.queue.desc a b c v.descs)
        (unfold header_desc in refl) (filled_second bd v.idx_in bd.queue.desc a b c v.descs)
        (has_bit-data_desc buffer size write) (filled_third bd v.idx_in bd.queue.desc a b c v.descs)
        (unfold status_desc in refl)),
  rw (submit-avail bd v.idx_in p buffer size write) refl,
  λ n h1 h2 h3.
      rw (submit-desc bd v.idx_in p buffer size write)
        (filled_other bd v.idx_in bd.queue.desc a b c v.descs n h1 h2 h3),
  submit-IsValid bd p buffer size write v,
)
  where
    a : Descriptor
    a = header_desc p

    b : Descriptor
    b = data_desc buffer size write

    c : Descriptor
    c = status_desc p
