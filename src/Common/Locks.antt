-- ===== src/Common/Locks.antt =====
-- A lock over a value, as `tokio::sync::Mutex` documents it: `lock` waits while a guard lives, the
-- guard's drop frees it, also when a panic unwinds, and a panic poisons nothing.
use mathlib.Core.Bool.{Bool, true, false}
use fuelmint.Common.Tests.{if◌then◌else◌}
use fuelmint.Common.Exec.{Exec, blocked}

pub record Mutex {ℓ} (A : Type ℓ) : Type ℓ where
  pub value : A
  pub held : Bool

module _ {ℓ} {A : Type ℓ} where
  -- `Mutex::new`
  abbrev pub new : A → Mutex A
  new a = record { value = a; held = false }

  abbrev pub take : Mutex A → Mutex A
  take m = record m { held = true }

  abbrev pub free : Mutex A → Mutex A
  free m = record m { held = false }

  abbrev pub write : A → Mutex A → Mutex A
  write a m = record m { value = a }

-- `let guard = mutex.lock().await; body` up to the end of the guard's scope, for the mutex that
-- `get` and `put` find in the state. Nothing else runs while the code waits, so a lock that is held
-- is waited for without end.
module _ {ℓ κ μ} {S : Type ℓ} {A : Type κ} {B : Type μ} where
  abbrev pub with_lock : (S → Mutex A) → (Mutex A → S → S) → Exec S B → Exec S B
  with_lock get put body s =
      if (get s).held
      then (blocked, s)
      else let (r, s') = body (put (take (get s)) s) in (r, put (free (get s')) s')
