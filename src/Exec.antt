-- ===== src/Exec.antt =====
-- Go code that reads and changes a world (the database, the clock, a provider) and may return an
-- error: a function from the world to the result and the world after it. What was changed before
-- an error stays changed, so the world comes back beside the error too.
pub mod Ok
pub mod Unchanged
use feedium.Prelude.{String}
use feedium.Errors.{Err, Result, ok, err, wrap}

abbrev pub Exec : Type 0 → Type 0 → Type 0
Exec S A = S → Result A × S

module _ {S A : Type 0} where
  abbrev pub pure : A → Exec S A
  pure a s = (ok a, s)

  abbrev pub raise : Err → Exec S A
  raise e s = (err e, s)

  abbrev pub lift : Result A → Exec S A
  lift r s = (r, s)

  abbrev pub wrapped : String → Result A × S → Result A × S
  wrapped m (ok a, s) = (ok a, s)
  wrapped m (err e, s) = (err (wrap m e), s)

  -- `if err != nil { return fmt.Errorf(m + ": %w", err) }`
  abbrev pub wrapping : String → Exec S A → Exec S A
  wrapping m x s = wrapped m (x s)

module _ {S A B : Type 0} where
  abbrev pub continue : Result A × S → (A → Exec S B) → Result B × S
  continue (ok a, s) f = f a s
  continue (err e, s) f = (err e, s)

  infixl 10 ◌>>=◌ ◌>>◌
  abbrev pub ◌>>=◌ : Exec S A → (A → Exec S B) → Exec S B
  ◌>>=◌ m f s = continue (m s) f

  abbrev pub ◌>>◌ : Exec S A → Exec S B → Exec S B
  m >> k = m >>= λ _. k
