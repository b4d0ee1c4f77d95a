-- ===== src/Exec/Unchanged.antt =====
-- Actions that leave a part of the world as it is where they answer an error.
use feedium.Prelude.{String, ◌≡◌, refl, Bool, true, false, if◌then◌else◌}
use feedium.Errors.{Err, Result, ok, err}
use feedium.Exec.{Exec, raise, wrapped, continue}

module _ {S D : Type 0} (db : S → D) where
  -- An error of the continuation leaves the database as it found it.
  pub continue-unchanged :
      {A B : Type 0} (p : Result A × S) (k : A → Exec S B) (e : Err)
      → ((a : A) (s : S) → (k a s).0 ≡ err e → db (k a s).1 ≡ db s)
      → (continue p k).0 ≡ err e
      → db (continue p k).1 ≡ db p.1
  continue-unchanged (ok a, s) k e h eq = h a s eq
  continue-unchanged (err x, s) k e h eq = refl

  pub guarded-unchanged :
      {B : Type 0} (b : Bool) (x : Err) (m : Exec S B) (s : S) (e : Err)
      → ((m s).0 ≡ err e → db (m s).1 ≡ db s)
      → ((if b then raise x else m) s).0 ≡ err e
      → db ((if b then raise x else m) s).1 ≡ db s
  guarded-unchanged true x m s e h eq = refl
  guarded-unchanged false x m s e h eq = h eq

-- Wrapping an error keeps what the action left.
pub wrapped-snd : {S A : Type 0} (what : String) (r : Result A × S) → (wrapped what r).1 ≡ r.1
wrapped-snd what (ok a, s) = refl
wrapped-snd what (err e, s) = refl
