-- ===== src/HoneyBadger/Exec/Agree.antt =====
-- Two runs of methods, on two states: what agrees before agrees after, where both return.
use mina_os.Base.{◌≡◌, refl, Bool, true, false, if◌then◌else◌}
use mina_os.HoneyBadger.Deps.{Except, ok, err}
use mina_os.HoneyBadger.Exec.Rules.{Post, Ensures}
use mina_os.HoneyBadger.Exec.Returns.{IsOk}
use mina_os.HoneyBadger.Exec.{Exec, pure, gets, lift, modify, follow, ◌>>=◌}

-- `Q` of both results and states, where there are two.
abbrev pub Pair :
    {E S A : Type 0} → (A → A → S → S → Type 0) → Except E A × S → Except E A × S → Type 0
Pair Q (ok a, s) (ok a', s') = Q a a' s s'
Pair Q (ok a, s) (err e', s') = Unit {0}
Pair Q (err e, s) r = Unit {0}

pub record Agrees {E S A : Type 0} (P : S → S → Type 0) (Q : A → A → S → S → Type 0)
    (m m' : Exec E S A) : Type 0 where
  pub at : (s s' : S) → P s s' → Pair Q (m s) (m' s')

module _ {E S A : Type 0} {P : S → S → Type 0} {Q : A → A → S → S → Type 0} where
  pub Agrees-pure :
      (a a' : A) → ((s s' : S) → P s s' → Q a a' s s') → Agrees {E = E} P Q (pure a) (pure a')
  unfolding pure
  Agrees-pure a a' h = record { at = h }

  pub Agrees-gets :
      (f : S → A)
      → ((s s' : S) → P s s' → Q (f s) (f s') s s')
      → Agrees {E = E} P Q (gets f) (gets f)
  unfolding gets
  Agrees-gets f h = record { at = h }

  pub Agrees-lift :
      (r r' : Except E A)
      → ((a a' : A) (s s' : S) → r ≡ ok a → r' ≡ ok a' → P s s' → Q a a' s s')
      → Agrees P Q (lift r) (lift r')
  unfolding lift
  Agrees-lift (ok a) (ok a') h = record { at = λ s s' p. h a a' s s' refl refl p }
  Agrees-lift (ok a) (err e') h = record { at = λ s s' p. tt }
  Agrees-lift (err e) r' h = record { at = λ s s' p. tt }

  pub Agrees-if :
      (b b' : Bool) (m n m' n' : Exec E S A)
      → b ≡ b'
      → Agrees P Q m m'
      → Agrees P Q n n'
      → Agrees P Q (if b then m else n) (if b' then m' else n')
  Agrees-if true true m n m' n' e h k = h
  Agrees-if false false m n m' n' e h k = k
  Agrees-if true false m n m' n' e h k = absurd (cc)
  Agrees-if false true m n m' n' e h k = absurd (cc)

  -- A fact that no state is part of may be used.
  pub Agrees-given :
      {X : Type 0} (m m' : Exec E S A) → (X → Agrees P Q m m') → Agrees (λ s s'. X × P s s') Q m m'
  Agrees-given m m' h = record { at = λ s s' p. (h p.0).at s s' p.1 }

  -- What holds of each run's state after it.
  pub Agrees-run :
      (m m' : Exec E S A)
      → ((s s' : S) (a a' : A)
          → P s s'
          → (m s).0 ≡ ok a
          → (m' s').0 ≡ ok a'
          → Q a a' (m s).1 (m' s').1)
      → Agrees P Q m m'
  Agrees-run m m' h = record {
    at = λ s s' p. pair (m s).0 (m' s').0 (m s).1 (m' s').1 (λ a a'. h s s' a a' p);
  }
    where
      pair :
          (r r' : Except E A) (s s' : S)
          → ((a a' : A) → r ≡ ok a → r' ≡ ok a' → Q a a' s s')
          → Pair Q (r, s) (r', s')
      pair (ok a) (ok a') s s' q = q a a' refl refl
      pair (ok a) (err e') s s' q = tt
      pair (err e) r' s s' q = tt

pub Agrees-modify :
    {E S : Type 0} {P Q : S → S → Type 0} (f f' : S → S)
    → ((s s' : S) → P s s' → Q (f s) (f' s'))
    → Agrees {E = E} P (λ (u u' : Unit {0}) s s'. Q s s') (modify f) (modify f')
unfolding modify
Agrees-modify f f' h = record { at = h }

Pair-err :
    {E S B : Type 0} (T : B → B → S → S → Type 0) (r : Except E B × S) (e' : E) (s' : S)
    → Pair T r (err e', s')
Pair-err T (ok b, s) e' s' = tt
Pair-err T (err e, s) e' s' = tt

module _ {E S A B : Type 0} {Q : A → A → S → S → Type 0} {T : B → B → S → S → Type 0} where
  follow-Pair :
      (r r' : Except E A) (f f' : A → Exec E S B) (s s' : S)
      → Pair Q (r, s) (r', s')
      → ((a a' : A) → Agrees (Q a a') T (f a) (f' a'))
      → Pair T (follow r f s) (follow r' f' s')
  unfolding follow
  follow-Pair (ok a) (ok a') f f' s s' q h = (h a a').at s s' q
  follow-Pair (ok a) (err e') f f' s s' q h = Pair-err T (f a s) e' s'
  follow-Pair (err e) r' f f' s s' q h = tt

  pub Agrees-bind :
      {P : S → S → Type 0} (m m' : Exec E S A) (f f' : A → Exec E S B)
      → Agrees P Q m m'
      → ((a a' : A) → Agrees (Q a a') T (f a) (f' a'))
      → Agrees P T (m >>= f) (m' >>= f')
  unfolding ◌>>=◌
  Agrees-bind m m' f f' hm hf = record {
    at = λ s s' p. follow-Pair (m s).0 (m' s').0 f f' (m s).1 (m' s').1 (hm.at s s' p) hf;
  }

module _ {E S A X : Type 0} (G : A → Type 0) (R : S → Type 0) (F : S → X) (T : X → X → Type 0) where
  alone_pair :
      (r r' : Except E A) (s s' : S) (x x' : X)
      → T x x'
      → Post (λ a s. G a × (F s ≡ x)) R r s
      → Post (λ a s. G a × (F s ≡ x')) R r' s'
      → Pair (λ a a' s s'. (G a × G a') × T (F s) (F s')) (r, s) (r', s')
  alone_pair (ok a) (ok a') s s' x x' t q q' = ((q.0, q'.0), rw (q.1, q'.1) t)
  alone_pair (ok a) (err e') s s' x x' t q q' = tt
  alone_pair (err e) r' s s' x x' t q q' = tt

  -- Each run by itself keeps what is shared, and its result has a property.
  pub Agrees-alone :
      (m m' : Exec E S A)
      → ((x : X) → Ensures (λ s. F s ≡ x) (λ a s. G a × (F s ≡ x)) R m)
      → ((x : X) → Ensures (λ s. F s ≡ x) (λ a s. G a × (F s ≡ x)) R m')
      → Agrees (λ s s'. T (F s) (F s')) (λ a a' s s'. (G a × G a') × T (F s) (F s')) m m'
  Agrees-alone m m' h h' = record {
    at = λ s s' p.
        alone_pair (m s).0 (m' s').0 (m s).1 (m' s').1 (F s) (F s') p ((h (F s)).at s refl)
          ((h' (F s')).at s' refl);
  }

beside :
    {E S A : Type 0} (Y : Type 0) (Q : A → A → S → S → Type 0) (r r' : Except E A × S)
    → Y
    → Pair Q r r'
    → Pair (λ a a' s s'. Y × Q a a' s s') r r'
beside Y Q (ok a, s) (ok a', s') y q = (y, q)
beside Y Q (ok a, s) (err e', s') y q = tt
beside Y Q (err e, s) r' y q = tt

-- A test whose two branches are one.
pub Agrees-either :
    {E S A : Type 0} {P : S → S → Type 0} {Q : A → A → S → S → Type 0} (b b' : Bool)
    (m m' : Exec E S A)
    → Agrees P Q m m'
    → Agrees P Q (if b then m else m) (if b' then m' else m')
Agrees-either true true m m' h = h
Agrees-either true false m m' h = h
Agrees-either false true m m' h = h
Agrees-either false false m m' h = h

-- A fact that no state is part of is carried along.
pub Agrees-beside :
    {E S A Y : Type 0} {P : S → S → Type 0} {Q : A → A → S → S → Type 0} (m m' : Exec E S A)
    → Agrees P Q m m'
    → Agrees (λ s s'. Y × P s s') (λ a a' s s'. Y × Q a a' s s') m m'
Agrees-beside m m' h = record { at = λ s s' p. beside _ _ (m s) (m' s') p.0 (h.at s s' p.1) }

pub Agrees-weaken :
    {E S A : Type 0} {P P' : S → S → Type 0} {Q : A → A → S → S → Type 0} (m m' : Exec E S A)
    → Agrees P Q m m'
    → ((s s' : S) → P' s s' → P s s')
    → Agrees P' Q m m'
Agrees-weaken m m' h f = record { at = λ s s' p. h.at s s' (f s s' p) }

-- Both runs return, and `Q` holds of their results and states.
abbrev pub Returned :
    {E S A : Type 0} → (A → A → S → S → Type 0) → Except E A × S → Except E A × S → Type 0
Returned Q (ok a, s) (ok a', s') = Q a a' s s'
Returned Q (ok a, s) (err e', s') = ⊥
Returned Q (err e, s) r = ⊥

pub Returned-Pair :
    {E S A : Type 0} (Q : A → A → S → S → Type 0) (r r' : Except E A × S)
    → Pair Q r r'
    → IsOk r.0
    → IsOk r'.0
    → Returned Q r r'
Returned-Pair Q (ok a, s) (ok a', s') q i i' = q
Returned-Pair Q (ok a, s) (err e', s') q i i' = i'
Returned-Pair Q (err e, s) r' q i i' = i
