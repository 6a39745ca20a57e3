-- ===== src/Probe/Slots.antt =====
-- osroutines.rs: `probe` stays inside the device tables and keeps them consistent, so that an
-- interrupt finds its driver's device.
use mina_os.Base.{
  ℕ, zero, suc, ◌+◌, ◌-◌, ◌*◌, ◌/◌, ◌^◌, ◌≤◌, ◌<◌, ◌≡◌, ◌≢◌, refl, sym, ◌∙◌, Bool, true, false,
  Option, none, some, List, ◌∷◌, arith, ◌==◌, if◌then◌else◌, length, get_elem?, set, length-set,
  get_elem?-set_self, get_elem?-set_ne, lt→ltb, Bool-cases, inl, inr, ℕ_discrete,
}
use mina_os.Io.{
  DeviceTypes, block, gpu, input, mmio_io_start, mmio_io_end, mmio_io_stride, mmio_io_magic,
}
use mina_os.Io.Machine.{Machine, M, ◌>>=◌, pure, Bus, Event, BlockDevice, read_volatile, got}
use mina_os.Block.{setup_block_device}
use mina_os.Block.Setup.{setup_block_device_lem, SetUp, fresh}
use mina_os.Probe.{
  Drivers, set_io_device, set_up, ignore, setup_network_device, set_up_device, probe_slot,
  probe_from, probe,
}

-- Eight slots in each table, and a block device behind each entry that says so.
pub record IsReady (s : Machine) : Type 0 where
  pub io_slots : length s.io_devices ≡ 8
  pub block_slots : length s.block_devices ≡ 8
  pub behind :
      (i : ℕ)
      → get_elem? s.io_devices i ≡ some (some (record { devtype = block }))
      → (bd : BlockDevice) × (get_elem? s.block_devices i ≡ some (some bd))

-- A step that returns, to a machine that is ready.
abbrev pub Keeps : {A : Type 0} → Option (A × Machine) → Type 0
Keeps none = ⊥
Keeps (some (a, s)) = IsReady s

-- A driver of another module leaves the two tables alone, and returns.
abbrev pub Behaves : {A : Type 0} → M A → Type 0
Behaves {A} m =
    (s : Machine)
    → (a : A) × (s' : Machine) × (m s ≡ some (a, s'))
      × (s'.io_devices ≡ s.io_devices)
      × (s'.block_devices ≡ s.block_devices)

pub record AllBehave (d : Drivers) : Type 0 where
  pub entropy : (ptr : ℕ) → Behaves (d.setup_entropy_device ptr)
  pub gpu_set_up : (ptr : ℕ) → Behaves (d.setup_gpu_device ptr)
  pub input_set_up : (ptr : ℕ) → Behaves (d.setup_input_device ptr)

IsReady-tables :
    (s s' : Machine)
    → s'.io_devices ≡ s.io_devices
    → s'.block_devices ≡ s.block_devices
    → IsReady s
    → IsReady s'
IsReady-tables s s' p q r = record {
  io_slots = rw p r.io_slots;
  block_slots = rw q r.block_slots;
  behind = rw (p, q) r.behind;
}

-- The entry of a slot is written, with a block device behind it if it says so.
set_io_device-IsReady :
    (i : ℕ) (t : DeviceTypes) (s : Machine)
    → i < 8
    → ((t ≡ block) → (bd : BlockDevice) × (get_elem? s.block_devices i ≡ some (some bd)))
    → IsReady s
    → Keeps (set_io_device i t s)
unfolding set_io_device
set_io_device-IsReady i t s h b r =
    rw (lt→ltb i (length s.io_devices) (omega arith), set_io_device)
      (record {
        io_slots = length-set s.io_devices i _ ∙ r.io_slots;
        block_slots = r.block_slots;
        behind = λ j e. elim (ℕ_discrete i j) [
          | yes p ↦ rw (← p) (b (written_type j p e))
          | no n ↦ r.behind j (sym (get_elem?-set_ne s.io_devices _ n) ∙ e)
        ];
      })
  where
    written_type :
        (j : ℕ)
        → i ≡ j
        → get_elem? (set s.io_devices i (some (record { devtype = t }))) j
          ≡ some (some (record { devtype = block }))
        → t ≡ block
    written_type j p e =
        let q : get_elem? (set s.io_devices i (some (record { devtype = t }))) i
            ≡ some (some (record { devtype = t })) =
          get_elem?-set_self s.io_devices i _ (omega arith) in
        ground (arith, q, p)

-- A block device that is put into its slot is behind what stands there.
set_block-IsReady :
    (i : ℕ) (bd : BlockDevice) (s s' : Machine)
    → i < 8
    → s'.io_devices ≡ s.io_devices
    → s'.block_devices ≡ set s.block_devices i (some bd)
    → IsReady s
    → IsReady s'
set_block-IsReady i bd s s' h p q r = record {
  io_slots = rw p r.io_slots;
  block_slots = rw q (length-set s.block_devices i _ ∙ r.block_slots);
  behind =
      rw (p, q)
        λ j e. elim (ℕ_discrete i j) [
          | yes t ↦ (bd, rw (← t) (get_elem?-set_self s.block_devices i _ (omega arith)))
          | no n ↦
              let found = r.behind j e in (found.0, get_elem?-set_ne s.block_devices _ n ∙ found.1)
        ];
}

ignore-some :
    (m : M Bool) (s s' : Machine) (a : Bool) → m s ≡ some (a, s') → ignore m s ≡ some (tt, s')
unfolding ignore
ignore-some m s s' a e = rw (e, ignore, ◌>>=◌)

set_up-some :
    (m : M Bool) (addr : ℕ) (t : DeviceTypes) (s s' : Machine) (a : Bool)
    → m s ≡ some (a, s')
    → set_up m addr t s
      ≡ (if a then set_io_device ((addr - mmio_io_start) / 2 ^ 12) t else pure tt) s'
unfolding set_up
set_up-some m addr t s s' a e = rw (e, set_up, ◌>>=◌)

module _ (drivers : Drivers) (bus : Bus) (page_size : ℕ) (zalloc : List Event → ℕ)
    (behave : AllBehave drivers) where
  ignore-IsReady : (m : M Bool) (s : Machine) → Behaves m → IsReady s → Keeps (ignore m s)
  ignore-IsReady m s b r =
      let (a, s', e, p, q) = b s in rw (ignore-some m s s' a e) (IsReady-tables s s' p q r)

  set_up-IsReady :
      (m : M Bool) (addr : ℕ) (t : DeviceTypes) (s : Machine)
      → (addr - mmio_io_start) / 2 ^ 12 < 8
      → t ≢ block
      → Behaves m
      → IsReady s
      → Keeps (set_up m addr t s)
  set_up-IsReady m addr t s h n b r =
      let (a, s', e, p, q) = b s in
      rw (set_up-some m addr t s s' a e) (elim (Bool-cases a) [
        | inl y ↦ rw y (
            set_io_device-IsReady ((addr - mmio_io_start) / 2 ^ 12) t s' h (λ same. absurd (n same))
              (IsReady-tables s s' p q r))
        | inr y ↦ rw y (IsReady-tables s s' p q r)
      ])

  block_set_up :
      (o : Option (Bool × Machine)) (addr : ℕ) (s : Machine)
      → (addr - mmio_io_start) / 2 ^ 12 < 8
      → setup_block_device bus page_size zalloc addr s ≡ o
      → SetUp bus page_size zalloc addr s o
      → IsReady s
      → Keeps (set_up (setup_block_device bus page_size zalloc addr) addr block s)
  block_set_up none addr s h e u r = absurd u
  block_set_up (some (true, s')) addr s h e u r = rw (set_up-some _ addr block s s' true e) (
      set_io_device-IsReady ((addr - mmio_io_start) / 2 ^ 12) block s' h
        (λ _. (
          fresh bus page_size zalloc addr s,
          rw u.1 (
              get_elem?-set_self s.block_devices ((addr - mmio_io_start) / 2 ^ 12)
                (some (fresh bus page_size zalloc addr s)) (omega (arith, r.block_slots))),
        ))
        (set_block-IsReady ((addr - mmio_io_start) / 2 ^ 12) (fresh bus page_size zalloc addr s) s
          s' h u.2 u.1 r))
  block_set_up (some (false, s')) addr s h e u r =
      rw (set_up-some _ addr block s s' false e) (IsReady-tables s s' u.2 u.1 r)

  set_up_device-IsReady :
      (deviceid addr : ℕ) (s : Machine)
      → mmio_io_start ≤ addr
      → addr ≤ mmio_io_end
      → IsReady s
      → Keeps (set_up_device drivers bus page_size zalloc deviceid addr s)
  unfolding set_up_device setup_network_device
  set_up_device-IsReady deviceid addr s lo hi r = elim (Bool-cases (deviceid == 1)) [
    | inl e ↦
        rw e (ignore-IsReady (setup_network_device addr) s (λ s'. (false, s', refl, refl, refl)) r)
    | inr e1 ↦ rw e1 (elim (Bool-cases (deviceid == 2)) [
      | inl e ↦ rw e (
          block_set_up _ addr s (omega arith) refl
            (setup_block_device_lem bus page_size zalloc addr s r.block_slots lo hi) r)
      | inr e2 ↦ rw e2 (elim (Bool-cases (deviceid == 4)) [
        | inl e ↦ rw e (ignore-IsReady _ s (behave.entropy addr) r)
        | inr e4 ↦ rw e4 (elim (Bool-cases (deviceid == 16)) [
          | inl e ↦
              rw e (set_up-IsReady _ addr gpu s (omega arith) (λ q. cc) (behave.gpu_set_up addr) r)
          | inr e16 ↦ rw e16 (elim (Bool-cases (deviceid == 18)) [
            | inl e ↦
                rw e (
                  set_up-IsReady _ addr input s (omega arith) (λ q. cc) (behave.input_set_up addr)
                    r)
            | inr e18 ↦ rw e18 r
          ])
        ])
      ])
    ])
  ]

  probe_slot-IsReady :
      (addr : ℕ) (s : Machine)
      → mmio_io_start ≤ addr
      → addr ≤ mmio_io_end
      → IsReady s
      → Keeps (probe_slot drivers bus page_size zalloc addr s)
  unfolding probe_slot read_volatile
  probe_slot-IsReady addr s lo hi r = elim (Bool-cases (mmio_io_magic == bus s.events addr)) [
    | inr e ↦ rw (e, ◌>>=◌) (IsReady-tables s _ refl refl r)
    | inl e ↦ rw e (elim (Bool-cases (0 == deviceid)) [
      | inl z ↦ rw z (IsReady-tables s _ refl refl r)
      | inr z ↦ rw z (set_up_device-IsReady deviceid addr _ lo hi (IsReady-tables s _ refl refl r))
    ])
  ]
    where
      deviceid : ℕ
      deviceid = bus (got addr (bus s.events addr) ∷ s.events) (addr + 8)

  and_then-Keeps :
      (o : Option (Unit {0} × Machine)) (k : Machine → Option (Unit {0} × Machine))
      → Keeps o
      → ((s' : Machine) → IsReady s' → Keeps (k s'))
      → Keeps (elim o [ none ↦ none | some (_, s') ↦ k s' ])
  and_then-Keeps none k h f = absurd h
  and_then-Keeps (some (_, s')) k h f = f s' h

  probe_from-IsReady :
      (n addr : ℕ) (s : Machine)
      → mmio_io_start ≤ addr
      → addr + n * mmio_io_stride ≤ mmio_io_end + mmio_io_stride
      → IsReady s
      → Keeps (probe_from drivers bus page_size zalloc n addr s)
  unfolding probe_from
  probe_from-IsReady zero addr s lo hi r = r
  probe_from-IsReady (suc n) addr s lo hi r =
      and_then-Keeps (probe_slot drivers bus page_size zalloc addr s)
        (λ s'. probe_from drivers bus page_size zalloc n (addr + mmio_io_stride) s')
        (probe_slot-IsReady addr s lo (omega arith) r)
        (λ s'. λ r'. probe_from-IsReady n (addr + mmio_io_stride) s' (omega arith) (omega arith) r')

  -- With tables of eight slots and a block device behind each entry that says so, and with drivers
  -- of the other modules that return and leave the two tables alone, `probe` returns without a
  -- panic, whatever the registers read, and leaves eight slots and a block device behind each
  -- entry that says so.
  pub probe-IsReady : (s : Machine) → IsReady s → Keeps (probe drivers bus page_size zalloc s)
  unfolding probe
  probe-IsReady s r = probe_from-IsReady 8 mmio_io_start s (omega arith) (omega arith) r
