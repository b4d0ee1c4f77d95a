-- ===== src/Exec/Ok.antt =====
-- What an action that answers a value has run through.
use feedium.Prelude.{String, ◌≡◌, refl}
use feedium.Errors.{Result, ok, err}
use feedium.Exec.{Exec, wrapped, wrapping, continue, ◌>>=◌}

pub ok_inj : {A : Type 0} {a b : A} → ok a ≡ ok b → a ≡ b
ok_inj h = cc

module _ {S A : Type 0} where
  wrapped_ok :
      (what : String) (r : Result A × S) (a : A) (s : S)
      → wrapped what r ≡ (ok a, s)
      → r ≡ (ok a, s)
  wrapped_ok what (ok b, t) a s h = h
  wrapped_ok what (err e, t) a s h = cc

  pub wrapping_ok :
      (what : String) (m : Exec S A) {a : A} {s s' : S}
      → wrapping what m s ≡ (ok a, s')
      → m s ≡ (ok a, s')
  wrapping_ok what m {a} {s} {s'} h = wrapped_ok what (m s) a s' h

-- The first action has answered a value, and the rest has answered from there.
pub record Through {S A B : Type 0} (m : Exec S A) (f : A → Exec S B) (s : S) (b : B) (s'' : S)
    : Type 0 where
  pub value : A
  pub state : S
  pub first : m s ≡ (ok value, state)
  pub rest : f value state ≡ (ok b, s'')

module _ {S A B : Type 0} where
  continue_ok :
      (m : Exec S A) (f : A → Exec S B) (s : S) (r : Result A × S) (b : B) (s'' : S)
      → m s ≡ r
      → continue r f ≡ (ok b, s'')
      → Through m f s b s''
  continue_ok m f s (ok a, s') b s'' e h = record { value = a; state = s'; first = e; rest = h }
  continue_ok m f s (err x, s') b s'' e h = cc

  pub bind_ok :
      (m : Exec S A) (f : A → Exec S B) {s : S} {b : B} {s'' : S}
      → (m >>= f) s ≡ (ok b, s'')
      → Through m f s b s''
  bind_ok m f {s} {b} {s''} h = continue_ok m f s (m s) b s'' refl h
