-- ===== src/Common/Ends.antt =====
-- Code that comes to an end: by an error and what it tells, by a value with a postcondition, or in a
-- call that does not come back, where that can happen. It never waits.
use mathlib.Core.Path.{◌≡◌}
use fuelmint.Common.Results.{Result, ok, err}
use fuelmint.Common.Exec.{Outcome, Panic, returned, panicked}

pub data Ends {S E A : Type 0} (Stops : Panic → S → Type 0) (Fails : E → S → Type 0)
    (Post : A → S → Type 0) (x : Outcome (Result E A) × S) : Type 0 where
  by_error : (e : E) (s : S) → Fails e s → x ≡ (returned (err e), s) → Ends Stops Fails Post x
  by_value : (a : A) (s : S) → Post a s → x ≡ (returned (ok a), s) → Ends Stops Fails Post x
  by_stop : (p : Panic) (s : S) → Stops p s → x ≡ (panicked p, s) → Ends Stops Fails Post x

-- what code that always comes back stops by
abbrev pub Never : {S : Type 0} → Panic → S → Type 0
Never _ _ = ⊥
