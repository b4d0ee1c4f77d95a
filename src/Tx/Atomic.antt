-- ===== src/Tx/Atomic.antt =====
-- What a transaction leaves in the database (internal/data/tx_manager.go).
use feedium.Prelude.{◌≡◌, refl, Option, none, some}
use feedium.Errors.{Err, Result, ok, err}
use feedium.Exec.{Exec}
use feedium.Tx.{Held, Driver, committed, ended, begun, in_tx}

-- A transaction that answers an error has changed nothing, and one that answers a value has run its
-- function with this value and kept what it did.
pub data Atomic {S D A : Type 0} (db : S → D) (fn : Exec S A) (s : S) : Result A × S → Type 0 where
  nothing : (e : Err) (s' : S) → db s' ≡ db s → Atomic db fn s (err e, s')
  all : (a : A) (s' : S) → fn s ≡ (ok a, s') → Atomic db fn s (ok a, s')

module _ {S D A : Type 0} (held : Held S D) (driver : Driver S) (fn : Exec S A) (s : S) where
  committed-Atomic :
      (a : A) (s' : S) (o : Option Err)
      → fn s ≡ (ok a, s')
      → Atomic held.db fn s (committed held driver s a s' o)
  committed-Atomic a s' none e = all a s' e
  committed-Atomic a s' (some x) e = nothing _ _ (held.db-restore (held.db s) s')

  ended-Atomic : (p : Result A × S) → fn s ≡ p → Atomic held.db fn s (ended held driver s p)
  ended-Atomic (ok a, s') e = committed-Atomic a s' (driver.commit s') e
  ended-Atomic (err x, s') e = nothing _ _ (held.db-restore (held.db s) s')

  begun-Atomic : (o : Option Err) → Atomic held.db fn s (begun held driver fn s o)
  begun-Atomic none = ended-Atomic (fn s) refl
  begun-Atomic (some x) = nothing _ _ refl

  -- Whatever the driver answers to BEGIN, ROLLBACK and COMMIT, a transaction that answers an error
  -- leaves the database as it was, and one that answers a value has run its function once, with this
  -- value, and leaves the state that the function left.
  pub in_tx-Atomic : Atomic held.db fn s (in_tx held driver fn s)
  unfolding in_tx
  in_tx-Atomic = begun-Atomic (driver.begin s)

pub from_err :
    {S D A : Type 0} (db : S → D) (fn : Exec S A) (s : S) (e : Err) (p : Result A × S)
    → Atomic db fn s p
    → p.0 ≡ err e
    → db p.1 ≡ db s
from_err db fn s e p (nothing x s' same) h = same
from_err db fn s e p (all a s' ran) h = cc

-- The contract that the use cases ask of a transaction.
pub in_tx-rolled_back :
    {S D A : Type 0} (held : Held S D) (driver : Driver S) (fn : Exec S A) (s : S) (e : Err)
    → (in_tx held driver fn s).0 ≡ err e
    → held.db (in_tx held driver fn s).1 ≡ held.db s
in_tx-rolled_back held driver fn s e h = from_err held.db fn s e _ (in_tx-Atomic held driver fn s) h
