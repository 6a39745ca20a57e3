-- ===== src/HoneyBadger/Votes/Winner.antt =====
-- votes.rs: `compute_winner` finds a change with more committed votes than nodes may be faulty.
use mina_os.Base.{
  ℕ, suc, ◌+◌, ◌≤◌, ◌<◌, ◌≡◌, refl, Option, none, some, List, [], ◌∷◌, arith, ltb, ltb→lt, ◌↔◌, ite,
  Bool-cases, inl, inr, length,
}
use mina_os.HoneyBadger.Deps.{Deps, Change, change_eq}
use mina_os.HoneyBadger.Votes.{Vote, VoteCounter, values, raise, tally, compute_winner}

module _ (d : Deps) where
  -- How many of the votes are for a change.
  pub count : Change d → List (Vote d) → ℕ
  count c [] = 0
  count c (v ∷ vs) = ite (change_eq d v.change c) (suc (count c vs)) (count c vs)

  -- What `tally` returns of the votes still to come, if no count has passed the limit so far.
  abbrev Elects : ℕ → List (Vote d) → (Change d → ℕ) → Option (Change d) → Type 0
  Elects limit vs counts none = (c : Change d) → counts c + count c vs ≤ limit
  Elects limit vs counts (some c) = limit < counts c + count c vs

  raise-count :
      (c : Change d) (v : Vote d) (vs : List (Vote d)) (counts : Change d → ℕ)
      → raise d v.change counts c + count c vs ≡ counts c + count c (v ∷ vs)
  unfolding raise count
  raise-count c v vs counts = ground arith

  raise_self : (c : Change d) (counts : Change d → ℕ) → raise d c counts c ≡ suc (counts c)
  unfolding raise
  raise_self c counts = ground arith

  Elects-cons :
      (limit : ℕ) (v : Vote d) (vs : List (Vote d)) (counts : Change d → ℕ) (r : Option (Change d))
      → Elects limit vs (raise d v.change counts) r
      → Elects limit (v ∷ vs) counts r
  Elects-cons limit v vs counts none e = λ c. omega (arith, raise-count c v vs counts, e c)
  Elects-cons limit v vs counts (some c) e = omega (arith, raise-count c v vs counts, e)

  raise-le :
      (limit : ℕ) (c c' : Change d) (counts : Change d → ℕ)
      → raise d c counts c ≤ limit
      → counts c' ≤ limit
      → raise d c counts c' ≤ limit
  unfolding raise
  raise-le limit c c' counts h k = ground arith

  tally-Elects :
      (limit : ℕ) (vs : List (Vote d)) (counts : Change d → ℕ)
      → ((c : Change d) → counts c ≤ limit)
      → Elects limit vs counts (tally d limit vs counts)
  unfolding tally count
  tally-Elects limit [] counts h = λ c. omega (arith, h c)
  tally-Elects limit (v ∷ vs) counts h =
      elim (Bool-cases (ltb limit (raise d v.change counts v.change))) [
        | inl t ↦ rw t (omega (arith, raise-count v.change v vs counts, ltb→lt limit _ t))
        | inr f ↦ rw f (
            Elects-cons limit v vs counts _ (
              tally-Elects limit vs (raise d v.change counts)
                λ c. raise-le limit v.change c counts (ground arith) (h c)))
      ]

  decode :
      (limit : ℕ) (vs : List (Vote d)) (r : Option (Change d))
      → Elects limit vs (λ _. 0) r
      → ((c : Change d) → r ≡ some c → limit < count c vs)
        × (r ≡ none ↔ ((c : Change d) → count c vs ≤ limit))
  decode limit vs none e = (λ c q. cc, (λ q c. omega (arith, e c), λ h. refl))
  decode limit vs (some c) e = (
    λ c' q. let p : c ≡ c' = cc in rw (← p) (omega (arith, e)),
    (λ q. cc, λ h. absurd (omega (arith, h c, e))),
  )

  -- The change that `compute_winner` returns has more committed votes than nodes may be faulty, and
  -- it returns none exactly where no change has more.
  pub compute_winner_lem :
      (vc : VoteCounter d)
      → let limit = d.max_faulty (length vc.pub_keys) in
        let votes = values d vc.committed in
        ((c : Change d) → compute_winner d vc ≡ some c → limit < count c votes)
        × (compute_winner d vc ≡ none ↔ ((c : Change d) → count c votes ≤ limit))
  unfolding compute_winner
  compute_winner_lem vc = decode (d.max_faulty (length vc.pub_keys)) (values d vc.committed) _ (
      tally-Elects (d.max_faulty (length vc.pub_keys)) (values d vc.committed) (λ _. 0)
        (λ c. omega arith))
