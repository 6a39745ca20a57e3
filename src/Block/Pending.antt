-- ===== src/Block/Pending.antt =====
-- block.rs: `pending` handles each used element once, and then stops.
use mina_os.Base.{
  ℕ, zero, suc, ◌+◌, ◌-◌, ◌%◌, ◌^◌, ◌<◌, ◌≡◌, ◌≢◌, refl, sym, ap, ◌∙◌, Bool, true, false, not, ◌&&◌,
  Option, none, some, List, [], ◌∷◌, arith, ◌==◌, ltb, lt→ltb, set, if◌then◌else◌, length,
  get_elem?, All, All-map, ==_iff,
}
use mina_os.Base.Word.{u16}
use mina_os.Io.{Descriptor, io_ring_size}
use mina_os.Io.Machine.{Machine, freed, set_running, set_a0, BlockDevice, Request, UsedElem}
use mina_os.Block.{complete, pending, set_device, handle_interrupt}

-- The used elements that the device has returned and the driver has not seen.
abbrev pub unseen : BlockDevice → ℕ
unseen bd = (bd.queue.used.idx + 2 ^ 16 - bd.ack_used_idx) % 2 ^ 16

-- The used element at counter `i` leads to the request at `p`.
abbrev pub Names : BlockDevice → ℕ → ℕ → Type 0
Names bd i p =
    (e : UsedElem) × (d : Descriptor) × (get_elem? bd.queue.used.ring (i % io_ring_size) ≡ some e)
    × (get_elem? bd.queue.desc e.id ≡ some d)
    × (d.addr ≡ p)

-- The used elements from counter `i` on lead to the requests `ps`, in this order.
abbrev pub NamesAll : BlockDevice → ℕ → List ℕ → Type 0
NamesAll bd i [] = Unit {0}
NamesAll bd i (p ∷ ps) = Names bd i p × NamesAll bd (u16 (i + 1)) ps

abbrev pub Distinct : List ℕ → Type 0
Distinct [] = Unit {0}
Distinct (p ∷ ps) = All (λ q. p ≢ q) ps × Distinct ps

-- A request lies at `p`, and the process that watches it, if any, exists.
abbrev pub IsLive : Machine → ℕ → Type 0
IsLive s p =
    (rq : Request) × (s.requests p ≡ some rq) × (0 < rq.watcher → s.processes rq.watcher ≡ true)

-- A request is finished: its watcher, if any, is set running and gets the status, and it is freed.
pub finish : Machine → ℕ → Option Request → Machine
finish s p none = s
finish s p (some rq) = record s {
  events =
      freed p
      ∷ (if ltb 0 rq.watcher
          then set_a0 rq.watcher rq.status ∷ set_running rq.watcher ∷ s.events
          else s.events);
  requests = λ a. if a == p then none else s.requests a;
}

pub finish_all : Machine → List ℕ → Machine
finish_all s [] = s
finish_all s (p ∷ ps) = finish_all (finish s p (s.requests p)) ps

watched : (n : ℕ) (b : Bool) → (0 < n → b ≡ true) → (ltb 0 n && not b) ≡ false
watched n true h = ground arith
watched n false h = ground (arith, h)

complete_lem :
    (bd : BlockDevice) (s : Machine) (p : ℕ)
    → Names bd bd.ack_used_idx p
    → IsLive s p
    → complete bd s
      ≡ some (record bd { ack_used_idx = u16 (bd.ack_used_idx + 1) }, finish s p (s.requests p))
unfolding complete finish
complete_lem bd s p (e, d, he, hd, hp) (rq, hr, w) =
    rw (complete, he, hd, hp, hr, hp, watched rq.watcher (s.processes rq.watcher) w)

pending_stop :
    (fuel : ℕ) (bd : BlockDevice) (s : Machine)
    → bd.ack_used_idx ≡ bd.queue.used.idx
    → pending (suc fuel) bd s ≡ some (record bd { ack_used_idx = bd.queue.used.idx }, s)
unfolding pending
pending_stop fuel bd s e =
    rw ((==_iff bd.ack_used_idx bd.queue.used.idx).1 e, pending)
      (ap (λ k. some (record bd { ack_used_idx = k }, s)) e)

pending_round :
    (fuel : ℕ) (bd bd' : BlockDevice) (s s' : Machine)
    → (bd.ack_used_idx == bd.queue.used.idx) ≡ false
    → complete bd s ≡ some (bd', s')
    → pending (suc fuel) bd s ≡ pending fuel bd' s'
unfolding pending
pending_round fuel bd bd' s s' t e = rw (t, e, pending)

-- Freeing one request keeps the others alive.
finish-IsLive :
    (s : Machine) (p q : ℕ) (r : Option Request) → p ≢ q → IsLive s q → IsLive (finish s p r) q
unfolding finish
finish-IsLive s p q none h l = l
finish-IsLive s p q (some rq) h (rq', l, w) = (rq', ground arith, w)

finish-AllLive :
    (s : Machine) (p : ℕ) (r : Option Request) (qs : List ℕ)
    → All (λ q. p ≢ q) qs
    → All (IsLive s) qs
    → All (IsLive (finish s p r)) qs
finish-AllLive s p r [] h l = tt
finish-AllLive s p r (q ∷ qs) h l = (finish-IsLive s p q r h.0 l.0, finish-AllLive s p r qs h.1 l.1)

-- Where the two counters fit 16 bits, the unseen used elements lead to distinct requests that are
-- alive and whose watchers exist, and the fuel is more than these elements, `pending` returns with
-- every one of these requests finished, in the order of the ring, and the driver's counter at the
-- device's.
pub pending_lem :
    (fuel : ℕ) (ps : List ℕ) (bd : BlockDevice) (s : Machine)
    → bd.ack_used_idx < 2 ^ 16
    → bd.queue.used.idx < 2 ^ 16
    → length ps ≡ unseen bd
    → unseen bd < fuel
    → NamesAll bd bd.ack_used_idx ps
    → Distinct ps
    → All (IsLive s) ps
    → pending fuel bd s ≡ some (record bd { ack_used_idx = bd.queue.used.idx }, finish_all s ps)
unfolding finish_all
pending_lem zero ps bd s a u l f n d h = absurd (omega arith)
pending_lem (suc fuel) [] bd s a u l f n d h = pending_stop fuel bd s (omega arith)
pending_lem (suc fuel) (p ∷ ps) bd s a u l f n d h =
    pending_round fuel bd _ s _ (ground arith) (complete_lem bd s p n.0 h.0)
    ∙ pending_lem fuel ps (record bd { ack_used_idx = u16 (bd.ack_used_idx + 1) })
        (finish s p (s.requests p)) (omega arith) u (omega arith) (omega arith) n.1 d.1
        (finish-AllLive s p (s.requests p) ps d.0 h.1)

finish-devices :
    (s : Machine) (p : ℕ) (r : Option Request) → (finish s p r).block_devices ≡ s.block_devices
unfolding finish
finish-devices s p none = refl
finish-devices s p (some rq) = refl

finish_all-devices : (s : Machine) (ps : List ℕ) → (finish_all s ps).block_devices ≡ s.block_devices
unfolding finish_all
finish_all-devices s [] = refl
finish_all-devices s (p ∷ ps) =
    finish_all-devices (finish s p (s.requests p)) ps ∙ finish-devices s p (s.requests p)

finish-requests :
    (s : Machine) (p q : ℕ) (r : Option Request) → p ≢ q → (finish s p r).requests q ≡ s.requests q
unfolding finish
finish-requests s p q none h = refl
finish-requests s p q (some rq) h = ground arith

finish_all-requests :
    (s : Machine) (ps : List ℕ) (q : ℕ)
    → All (λ p. p ≢ q) ps
    → (finish_all s ps).requests q ≡ s.requests q
unfolding finish_all
finish_all-requests s [] q h = refl
finish_all-requests s (p ∷ ps) q h =
    finish_all-requests (finish s p (s.requests p)) ps q h.1
    ∙ finish-requests s p q (s.requests p) h.0

finish-freed : (s : Machine) (p : ℕ) → IsLive s p → (finish s p (s.requests p)).requests p ≡ none
unfolding finish
finish-freed s p (rq, l, w) = rw l (ground arith)

finish_all-freed :
    (s : Machine) (ps : List ℕ)
    → Distinct ps
    → All (IsLive s) ps
    → All (λ p. (finish_all s ps).requests p ≡ none) ps
unfolding finish_all
finish_all-freed s [] d l = tt
finish_all-freed s (p ∷ ps) d l = (
  finish_all-requests (finish s p (s.requests p)) ps p
        (All-map _ (λ q. q ≢ p) (λ q h e. h (sym e)) ps d.0)
      ∙ finish-freed s p l.0,
  finish_all-freed (finish s p (s.requests p)) ps d.1
      (finish-AllLive s p (s.requests p) ps d.0 l.1),
)

-- One finished request wakes its watcher.
pub finish_all_wakes :
    (s : Machine) (p : ℕ) (rq : Request)
    → s.requests p ≡ some rq
    → 0 < rq.watcher
    → (finish_all s (p ∷ [])).events
      ≡ freed p ∷ set_a0 rq.watcher rq.status ∷ set_running rq.watcher ∷ s.events
unfolding finish_all finish
finish_all_wakes s p rq l h = rw (l, lt→ltb 0 rq.watcher h)

pub set_device-in :
    (i : ℕ) (bd : Option BlockDevice) (s : Machine)
    → i < length s.block_devices
    → set_device i bd s ≡ some (tt, record s { block_devices = set s.block_devices i bd })
unfolding set_device
set_device-in i bd s h = rw (lt→ltb i (length s.block_devices) h, set_device)

pub lt_of_get {ℓ} :
    {A : Type ℓ} (xs : List A) (i : ℕ) {x : A} → get_elem? xs i ≡ some x → i < length xs
lt_of_get [] i h = cc
lt_of_get (x ∷ xs) zero h = omega arith
lt_of_get (x ∷ xs) (suc i) h = omega (arith, lt_of_get xs i h)

-- An interrupt of a device whose two counters fit 16 bits and whose unseen used elements lead to
-- distinct live requests, with watchers that exist as processes, is handled without a panic: the
-- requests are finished in the order of the ring, each of them is freed and no other is, and the
-- device is left with nothing unseen.
pub handle_interrupt_lem :
    (i : ℕ) (ps : List ℕ) (bd : BlockDevice) (s : Machine)
    → get_elem? s.block_devices i ≡ some (some bd)
    → bd.ack_used_idx < 2 ^ 16
    → bd.queue.used.idx < 2 ^ 16
    → length ps ≡ unseen bd
    → NamesAll bd bd.ack_used_idx ps
    → Distinct ps
    → All (IsLive s) ps
    → let bd' = record bd { ack_used_idx = bd.queue.used.idx } in
      let s' = record (finish_all s ps) { block_devices = set s.block_devices i (some bd') } in
      (handle_interrupt i s ≡ some (tt, s'))
      × All (λ p. s'.requests p ≡ none) ps
      × ((q : ℕ) → All (λ p. p ≢ q) ps → s'.requests q ≡ s.requests q)
      × (unseen bd' ≡ 0)
unfolding handle_interrupt
handle_interrupt_lem i ps bd s slot a u l n d h = (
  rw (slot, handle_interrupt, pending_lem (2 ^ 16) ps bd s a u l (omega arith) n d h)
      (set_device-in i _ (finish_all s ps)
          (rw (finish_all-devices s ps) (lt_of_get s.block_devices i slot))
        ∙ rw (finish_all-devices s ps)),
  finish_all-freed s ps d h,
  finish_all-requests s ps,
  omega arith,
)
