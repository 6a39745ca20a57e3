-- ===== src/HoneyBadger/Exec.antt =====
-- Rust's `&mut self` methods that return a `Result`: what was changed before a failure stays
-- changed.  `?` is the bind of a `do` block.
pub mod Rules
pub mod Returns
pub mod Agree
use mina_os.HoneyBadger.Deps.{Except, ok, err}

abbrev pub Exec : Type 0 → Type 0 → Type 0 → Type 0
Exec E S A = S → Except E A × S

module _ {E S A : Type 0} where
  unfoldable pub pure : A → Exec E S A
  pure a s = (ok a, s)

  unfoldable pub gets : (S → A) → Exec E S A
  gets f s = (ok (f s), s)

  -- A result that is at hand.
  unfoldable pub lift : Except E A → Exec E S A
  lift r s = (r, s)

unfoldable pub modify : {E S : Type 0} → (S → S) → Exec E S (Unit {0})
modify f s = (ok tt, f s)

-- What follows a result, in the state after it.
unfoldable pub follow : {E S A B : Type 0} → Except E A → (A → Exec E S B) → Exec E S B
follow (ok a) f s = f a s
follow (err e) f s = (err e, s)

infixl 5 ◌>>=◌ ◌>>◌
unfoldable pub ◌>>=◌ : {E S A B : Type 0} → Exec E S A → (A → Exec E S B) → Exec E S B
unfolding follow
◌>>=◌ m f s = let (r, s') = m s in follow r f s'

abbrev pub ◌>>◌ : {E S B : Type 0} → Exec E S (Unit {0}) → Exec E S B → Exec E S B
m >> k = m >>= λ _. k
