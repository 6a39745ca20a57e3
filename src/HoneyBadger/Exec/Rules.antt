-- ===== src/HoneyBadger/Exec/Rules.antt =====
-- Postconditions of methods, one rule for each way to build one.
use mina_os.Base.{◌≡◌, refl, Bool, true, false, Option, none, some, if◌then◌else◌}
use mina_os.HoneyBadger.Deps.{Except, ok, err}
use mina_os.HoneyBadger.Exec.{Exec, pure, gets, lift, modify, follow, ◌>>=◌}

-- `Q` of what is returned, and `R` where the method fails.
abbrev pub Post : {E S A : Type 0} → (A → S → Type 0) → (S → Type 0) → Except E A → S → Type 0
Post Q R (ok a) s = Q a s
Post Q R (err e) s = R s

both :
    {E S A : Type 0} (Q : A → S → Type 0) (R : S → Type 0) (r : Except E A) (s : S)
    → ((a : A) → Q a s)
    → R s
    → Post Q R r s
both Q R (ok a) s q f = q a
both Q R (err e) s q f = f

pub record Ensures {E S A : Type 0} (P : S → Type 0) (Q : A → S → Type 0) (R : S → Type 0)
    (m : Exec E S A) : Type 0 where
  pub at : (s : S) → P s → Post Q R (m s).0 (m s).1

-- `m` keeps `P`, whether it returns or fails.
abbrev pub Keeps : {E S A : Type 0} → (S → Type 0) → Exec E S A → Type 0
Keeps P m = Ensures P (λ a s. P s) P m

module _ {E S A : Type 0} {P : S → Type 0} {Q : A → S → Type 0} {R : S → Type 0} where
  pub Ensures-pure : (a : A) → ((s : S) → P s → Q a s) → Ensures {E = E} P Q R (pure a)
  unfolding pure
  Ensures-pure a h = record { at = h }

  pub Ensures-gets : (f : S → A) → ((s : S) → P s → Q (f s) s) → Ensures {E = E} P Q R (gets f)
  unfolding gets
  Ensures-gets f h = record { at = h }

  -- What holds of the state after a return and after a failure.
  pub Ensures-run :
      (m : Exec E S A)
      → ((s : S) → P s → (a : A) → Q a (m s).1)
      → ((s : S) → P s → R (m s).1)
      → Ensures P Q R m
  Ensures-run m q r = record { at = λ s p. both Q R (m s).0 (m s).1 (q s p) (r s p) }

  pub Ensures-lift :
      (r : Except E A)
      → ((a : A) (s : S) → P s → Q a s)
      → ((s : S) → P s → R s)
      → Ensures P Q R (lift r)
  unfolding lift
  Ensures-lift (ok a) q f = record { at = q a }
  Ensures-lift (err e) q f = record { at = f }

  pub Ensures-if :
      (b : Bool) (m n : Exec E S A)
      → (b ≡ true → Ensures P Q R m)
      → (b ≡ false → Ensures P Q R n)
      → Ensures P Q R (if b then m else n)
  Ensures-if true m n hm hn = hm refl
  Ensures-if false m n hm hn = hn refl

pub Ensures-modify :
    {E S : Type 0} {P : S → Type 0} {Q R : S → Type 0} (f : S → S)
    → ((s : S) → P s → Q (f s))
    → Ensures {E = E} P (λ (u : Unit {0}) s. Q s) R (modify f)
unfolding modify
Ensures-modify f h = record { at = h }

framed :
    {E S A : Type 0} (Q : A → S → Type 0) (R : S → Type 0) (X : Type 0) (r : Except E A) (s : S)
    → Post Q R r s
    → X
    → Post (λ a s. Q a s × X) R r s
framed Q R X (ok a) s q x = (q, x)
framed Q R X (err e) s q x = q

-- A fact that no state is part of is carried along.
pub Ensures-frame :
    {E S A X : Type 0} {P : S → Type 0} {Q : A → S → Type 0} {R : S → Type 0} (m : Exec E S A)
    → Ensures P Q R m
    → Ensures (λ s. P s × X) (λ a s. Q a s × X) R m
Ensures-frame m hm = record { at = λ s h. framed _ _ _ (m s).0 (m s).1 (hm.at s h.0) h.1 }

module _ {E S A B : Type 0} {Q : A → S → Type 0} {T : B → S → Type 0} {R : S → Type 0} where
  follow-Post :
      (r : Except E A) (f : A → Exec E S B) (s : S)
      → Post Q R r s
      → ((a : A) → Ensures (Q a) T R (f a))
      → Post T R (follow r f s).0 (follow r f s).1
  unfolding follow
  follow-Post (ok a) f s q h = (h a).at s q
  follow-Post (err e) f s q h = q

  pub Ensures-bind :
      {P : S → Type 0} (m : Exec E S A) (f : A → Exec E S B)
      → Ensures P Q R m
      → ((a : A) → Ensures (Q a) T R (f a))
      → Ensures P T R (m >>= f)
  unfolding ◌>>=◌
  Ensures-bind m f hm hf = record {
    at = λ s p. let (r, s') = m s in follow-Post r f s' (hm.at s p) hf;
  }

module _ {E S A : Type 0} {P : S → Type 0} where
  pub Keeps-pure : (a : A) → Keeps {E = E} P (pure a)
  Keeps-pure a = Ensures-pure a (λ s h. h)

  pub Keeps-gets : (f : S → A) → Keeps {E = E} P (gets f)
  Keeps-gets f = Ensures-gets f (λ s h. h)

  pub Keeps-lift : (r : Except E A) → Keeps P (lift r)
  unfolding lift
  Keeps-lift (ok a) = record { at = λ s h. h }
  Keeps-lift (err e) = record { at = λ s h. h }

  pub Keeps-if :
      (b : Bool) (m n : Exec E S A) → Keeps P m → Keeps P n → Keeps P (if b then m else n)
  Keeps-if b m n hm hn = Ensures-if b m n (λ _. hm) (λ _. hn)

pub Keeps-bind :
    {E S A B : Type 0} {P : S → Type 0} (m : Exec E S A) (f : A → Exec E S B)
    → Keeps P m
    → ((a : A) → Keeps P (f a))
    → Keeps P (m >>= f)
Keeps-bind m f hm hf = Ensures-bind m f hm hf

pub Ensures-option :
    {E S A B : Type 0} {P : S → Type 0} {Q : A → S → Type 0} {R : S → Type 0} (o : Option B)
    (n : Exec E S A) (f : B → Exec E S A)
    → Ensures P Q R n
    → ((b : B) → Ensures P Q R (f b))
    → Ensures P Q R (elim o [ none ↦ n | some b ↦ f b ])
Ensures-option none n f hn hf = hn
Ensures-option (some b) n f hn hf = hf b

pub ruleset keeps_rules = (Keeps-pure, Keeps-gets, Keeps-lift, Keeps-if, Keeps-bind)
