-- ===== src/HoneyBadger/Batch/Contents.antt =====
-- batch.rs: what a batch holds, counted and listed.
use mina_os.Base.{◌≡◌, ◌↔◌, refl, sym, ap, ◌∙◌, true, List, [], ◌∷◌, length, length-append, arith}
use mina_os.HoneyBadger.Deps.{Deps}
use mina_os.HoneyBadger.Votes.{values}
use mina_os.HoneyBadger.KeyGen.{KeyGens}
use mina_os.HoneyBadger.Batch.{Batch, flatten, into_tx_iter, sum_of, total_len, all_empty, is_empty}

module _ (d : Deps) (k : KeyGens d) (C : Type 0) where
  all_empty-sum_of :
      {T : Type 0} (as_ref : C → List T) (cs : List C)
      → (all_empty d k C as_ref cs ≡ true) ↔ (sum_of d k C as_ref cs ≡ 0)
  unfolding all_empty sum_of
  all_empty-sum_of as_ref [] = (λ e. refl, λ e. refl)
  all_empty-sum_of as_ref (c ∷ cs) =
      let ih = all_empty-sum_of as_ref cs in (λ e. ground (arith, ih.0), λ e. ground (arith, ih.1))

  is_empty_iff :
      {T : Type 0} (as_ref : C → List T) (b : Batch d k C)
      → (is_empty d k C as_ref b ≡ true) ↔ (total_len d k C as_ref b ≡ 0)
  unfolding is_empty total_len
  is_empty_iff as_ref b = all_empty-sum_of as_ref (values d b.contributions)

  length-flatten :
      {T : Type 0} (as_ref into_iter : C → List T) (cs : List C)
      → ((c : C) → into_iter c ≡ as_ref c)
      → length (flatten d k C into_iter cs) ≡ sum_of d k C as_ref cs
  unfolding flatten sum_of
  length-flatten as_ref into_iter [] h = refl
  length-flatten as_ref into_iter (c ∷ cs) h = omega (
    arith,
    length-append (into_iter c) (flatten d k C into_iter cs),
    ap length (h c),
    length-flatten as_ref into_iter cs h,
  )

  nil_iff : {T : Type 0} (xs : List T) → (length xs ≡ 0) ↔ (xs ≡ [])
  nil_iff [] = (λ e. refl, λ e. refl)
  nil_iff (x ∷ xs) = (λ e. absurd (omega (arith, e)), λ e. cc)

  -- Where a contribution is iterated over as its slice, `into_tx_iter` gives as many transactions
  -- as `total_len` says, and none exactly if `is_empty` holds.
  pub into_tx_iter_lem :
      {T : Type 0} (as_ref into_iter : C → List T) (b : Batch d k C)
      → ((c : C) → into_iter c ≡ as_ref c)
      → (length (into_tx_iter d k C into_iter b) ≡ total_len d k C as_ref b)
        × ((is_empty d k C as_ref b ≡ true) ↔ (into_tx_iter d k C into_iter b ≡ []))
  unfolding into_tx_iter total_len
  into_tx_iter_lem as_ref into_iter b h =
      let same = length-flatten as_ref into_iter (values d b.contributions) h in
      let none_left = nil_iff (flatten d k C into_iter (values d b.contributions)) in
      let empty = is_empty_iff as_ref b in
      (same, (λ e. none_left.0 (same ∙ empty.0 e), λ e. empty.1 (sym same ∙ none_left.1 e)))
