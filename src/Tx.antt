-- ===== src/Tx.antt =====
-- txManager.InTx (internal/data/tx_manager.go) over a state `S` that holds a database `D`.
pub mod Atomic
use feedium.Prelude.{Bool, true, false, Option, none, some, if◌then◌else◌, ◌≡◌}
use feedium.Errors.{Err, wrap, joined, Result, ok, err}
use feedium.Exec.{Exec}

-- The database within the state.
pub record Held (S D : Type 0) : Type 0 where
  pub db : S → D
  pub restore : D → S → S
  pub db-restore : (d : D) (s : S) → db (restore d s) ≡ d

-- What the driver answers: to BEGIN, to ROLLBACK (other than that the transaction is done), and to
-- COMMIT. A COMMIT that fails keeps nothing, and neither does a ROLLBACK that fails.
pub record Driver (S : Type 0) : Type 0 where
  pub begin : S → Option Err
  pub rollback : S → Option Err
  pub commit : S → Option Err

abbrev pub undone : Option Err → Err → Err
undone none e = e
undone (some r) e = joined "fn error: " e ", rollback error: " r

module _ {S D A : Type 0} (held : Held S D) (driver : Driver S) where
  open held use {db, restore}

  abbrev pub committed : S → A → S → Option Err → Result A × S
  committed before a s none = (ok a, s)
  committed before a s (some e) = (err (wrap "commit tx" e), restore (db before) s)

  abbrev pub ended : S → Result A × S → Result A × S
  ended before (ok a, s) = committed before a s (driver.commit s)
  ended before (err e, s) = (err (undone (driver.rollback s) e), restore (db before) s)

  abbrev pub begun : Exec S A → S → Option Err → Result A × S
  begun fn s (some e) = (err (wrap "begin tx" e), s)
  begun fn s none = ended s (fn s)

  unfoldable pub in_tx : Exec S A → Exec S A
  in_tx fn s = begun fn s (driver.begin s)
