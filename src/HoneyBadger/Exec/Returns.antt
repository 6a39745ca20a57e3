-- ===== src/HoneyBadger/Exec/Returns.antt =====
-- Methods that do not fail, one rule for each way to build one.
use mina_os.Base.{Bool, true, false, Option, none, some, if◌then◌else◌}
use mina_os.HoneyBadger.Deps.{Except, ok, err, map_err}
use mina_os.HoneyBadger.Exec.{Exec, pure, gets, lift, modify, follow, ◌>>=◌}

abbrev pub IsOk : {E A : Type 0} → Except E A → Type 0
IsOk (ok a) = Unit
IsOk (err e) = ⊥

pub IsOk-map_err : {E F A : Type 0} (f : E → F) (r : Except E A) → IsOk r → IsOk (map_err f r)
IsOk-map_err f (ok a) h = tt
IsOk-map_err f (err e) h = h

pub record Returns {E S A : Type 0} (m : Exec E S A) : Type 0 where
  pub at : (s : S) → IsOk (m s).0

module _ {E S A : Type 0} where
  pub Returns-pure : (a : A) → Returns {E = E} {S = S} (pure a)
  unfolding pure
  Returns-pure a = record { at = λ s. tt }

  pub Returns-gets : (f : S → A) → Returns {E = E} (gets f)
  unfolding gets
  Returns-gets f = record { at = λ s. tt }

  pub Returns-lift : (r : Except E A) → IsOk r → Returns {S = S} (lift r)
  unfolding lift
  Returns-lift r h = record { at = λ s. h }

  pub Returns-if :
      (b : Bool) (m n : Exec E S A) → Returns m → Returns n → Returns (if b then m else n)
  Returns-if true m n hm hn = hm
  Returns-if false m n hm hn = hn

pub Returns-modify : {E S : Type 0} (f : S → S) → Returns {E = E} (modify f)
unfolding modify
Returns-modify f = record { at = λ s. tt }

module _ {E S A B : Type 0} where
  follow-IsOk :
      (r : Except E A) (f : A → Exec E S B) (s : S)
      → IsOk r
      → ((a : A) → Returns (f a))
      → IsOk (follow r f s).0
  unfolding follow
  follow-IsOk (ok a) f s h hf = (hf a).at s
  follow-IsOk (err x) f s h hf = elim h [ ]

  pub Returns-bind :
      (m : Exec E S A) (f : A → Exec E S B)
      → Returns m
      → ((a : A) → Returns (f a))
      → Returns (m >>= f)
  unfolding ◌>>=◌
  Returns-bind m f hm hf = record { at = λ s. let (r, s') = m s in follow-IsOk r f s' (hm.at s) hf }

  pub Returns-option :
      (o : Option B) (n : Exec E S A) (f : B → Exec E S A)
      → Returns n
      → ((b : B) → Returns (f b))
      → Returns (elim o [ none ↦ n | some b ↦ f b ])
  Returns-option none n f hn hf = hn
  Returns-option (some b) n f hn hf = hf b
