-- ===== src/HoneyBadger/KeyGen/Count.antt =====
-- mod.rs and dynamic_honey_badger.rs: how often a node has sent a key generation message.
use mina_os.Base.{
  ℕ, ◌+◌, ◌^◌, ◌≤◌, ◌<◌, ◌≡◌, refl, ap, ◌∙◌, Bool, true, false, not, Option, none, some, List, [],
  ◌∷◌, ◌++◌, arith, if◌then◌else◌, ite, if_pos, if_neg, length,
}
use mina_os.Base.Word.{u64}
use mina_os.Base.BTreeMap.{get, get-insert}
use mina_os.HoneyBadger.Deps.{Deps, Except, ok, Result, FaultLog}
use mina_os.HoneyBadger.KeyGen.{
  KeyGens, KeyGenMessage, KeyGenState, SignedKeyGenMsg, DynamicHoneyBadger, count_of,
  count_messages, new_state, verify_signature, buffer_message, handle_key_gen_message,
}

module _ (d : Deps) (k : KeyGens d) where
  open d use {NodeId, node_ord}

  -- The state after a message of each of these nodes.
  pub counted : KeyGenState d k → List NodeId → KeyGenState d k
  counted kgs [] = kgs
  counted kgs (n ∷ ns) = counted (count_messages d k kgs n).1 ns

  pub occurrences : NodeId → List NodeId → ℕ
  occurrences n [] = 0
  occurrences n (m ∷ ms) = ite (node_ord.decide_eq m n) 1 0 + occurrences n ms

  abbrev or_zero : Option ℕ → ℕ
  or_zero none = 0
  or_zero (some c) = c

  count_of-count_messages :
      (kgs : KeyGenState d k) (m n : NodeId)
      → count_of d k kgs m + 1 < 2 ^ 64
      → count_of d k (count_messages d k kgs m).1 n
        ≡ count_of d k kgs n + ite (node_ord.decide_eq m n) 1 0
  unfolding count_messages
  count_of-count_messages kgs m n h =
      ap or_zero (get-insert ⦃o = node_ord⦄ m n (u64 (count_of d k kgs m + 1)) kgs.msg_count)
      ∙ picked
    where
      picked :
          or_zero (
            ite
              (node_ord.decide_eq m n)
              (some (u64 (count_of d k kgs m + 1)))
              (get ⦃o = node_ord⦄ kgs.msg_count n))
          ≡ count_of d k kgs n + ite (node_ord.decide_eq m n) 1 0
      picked = elim (node_ord.decide_eq m n) [
        | yes p ↦
            rw
              (
                if_pos (node_ord.decide_eq m n) p (some (u64 (count_of d k kgs m + 1)))
                    (get ⦃o = node_ord⦄ kgs.msg_count n),
                if_pos {C = ℕ} (node_ord.decide_eq m n) p 1 0,
              )
              (rw (← p) (omega (arith, h)))
        | no p ↦
            rw
              (
                if_neg (node_ord.decide_eq m n) p (some (u64 (count_of d k kgs m + 1)))
                    (get ⦃o = node_ord⦄ kgs.msg_count n),
                if_neg {C = ℕ} (node_ord.decide_eq m n) p 1 0,
              )
              (omega arith)
      ]

  one_at_most : (m n : NodeId) → ite (node_ord.decide_eq m n) 1 0 ≤ 1
  one_at_most m n = elim (node_ord.decide_eq m n) [
    | yes p ↦ rw (if_pos (node_ord.decide_eq m n) p) (omega arith)
    | no p ↦ rw (if_neg (node_ord.decide_eq m n) p) (omega arith)
  ]

  counted-occurrences :
      (kgs : KeyGenState d k) (ns : List NodeId) (n : NodeId)
      → ((m : NodeId) → count_of d k kgs m + length ns < 2 ^ 64)
      → count_of d k (counted kgs ns) n ≡ count_of d k kgs n + occurrences n ns
  unfolding counted occurrences
  counted-occurrences kgs [] n h = omega arith
  counted-occurrences kgs (m ∷ ns) n h =
      let rest : count_of d k (counted (count_messages d k kgs m).1 ns) n
          ≡ count_of d k (count_messages d k kgs m).1 n + occurrences n ns =
        counted-occurrences (count_messages d k kgs m).1 ns n
          (λ m'. omega (arith, first m', one_at_most m m', h m')) in
      omega (arith, first n, rest)
    where
      first :
          (m' : NodeId)
          → count_of d k (count_messages d k kgs m).1 m'
            ≡ count_of d k kgs m' + ite (node_ord.decide_eq m m') 1 0
      first m' = count_of-count_messages kgs m m' (omega (arith, h m))

  count_of-new_state : (kg : k.SyncKeyGen) (n : NodeId) → count_of d k (new_state d k kg) n ≡ 0
  unfolding new_state get
  count_of-new_state kg n = refl

  -- After a new state has counted one message for each entry of a list of nodes, its count of a node
  -- is the number of that node's entries, as long as the list is shorter than 2 ^ 64.
  counted-new_state :
      (kg : k.SyncKeyGen) (ns : List NodeId) (n : NodeId)
      → length ns < 2 ^ 64
      → count_of d k (counted (new_state d k kg) ns) n ≡ occurrences n ns
  counted-new_state kg ns n h = omega (
    arith,
    counted-occurrences (new_state d k kg) ns n (λ m. omega (arith, h, count_of-new_state kg m)),
    count_of-new_state kg n,
  )

  module _ (serialize : KeyGenMessage d k → Except d.SerializeError d.Bytes) where
    abbrev Buffered :
        DynamicHoneyBadger d k
        → SignedKeyGenMsg d k
        → Result d (FaultLog d) × DynamicHoneyBadger d k
        → Type 0
    Buffered s tx out =
        (out.0 ≡ ok d.logs.new) × (out.1.key_gen_msg_buffer ≡ s.key_gen_msg_buffer ++ (tx ∷ []))

    either :
        (s : DynamicHoneyBadger d k) (tx : SignedKeyGenMsg d k) (b : Bool)
        (x y : Result d (FaultLog d) × DynamicHoneyBadger d k)
        → Buffered s tx x
        → Buffered s tx y
        → Buffered s tx (if b then x else y)
    either s tx true x y bx by_y = bx
    either s tx false x y bx by_y = by_y

    buffered :
        (s : DynamicHoneyBadger d k) (kgs : KeyGenState d k) (n : NodeId) (m : KeyGenMessage d k)
        (sig : d.Signature)
        → s.key_gen_state ≡ some kgs
        → Buffered s
            (record { era = s.era; sender = n; message = m; sig = sig })
            (buffer_message d k serialize s n m sig)
    unfolding buffer_message count_messages
    buffered s kgs n m sig g = rw (g, buffer_message) (either s _ _ _ _ (refl, refl) (refl, refl))

    -- While a key generation is under way, a message that can be serialized is buffered without a
    -- fault, whether its signature verifies or not, and however many its sender has sent.
    pub handle_key_gen_message_unchecked :
        (s : DynamicHoneyBadger d k) (kgs : KeyGenState d k) (n : NodeId) (m : KeyGenMessage d k)
        (sig : d.Signature) (valid : Bool)
        → s.key_gen_state ≡ some kgs
        → verify_signature d k serialize s n sig m ≡ ok valid
        → let (r, s') = handle_key_gen_message d k serialize s n m sig in
          (r ≡ ok d.logs.new)
          × (s'.key_gen_msg_buffer
              ≡ s.key_gen_msg_buffer
                ++ (record { era = s.era; sender = n; message = m; sig = sig } ∷ []))
    unfolding handle_key_gen_message
    handle_key_gen_message_unchecked s kgs n m sig valid g v =
        rw (v, handle_key_gen_message)
          (either s _ (not valid) _ _ (buffered s kgs n m sig g) (buffered s kgs n m sig g))
