-- ===== src/Prelude/State.antt =====
-- State passing with failure, and changes of a function at one argument.
use Prim.Native.Nat.{ℕ}
use mathlib.Core.Option.{Option, none, some}
use syslib.Prelude.Tests.{◌==◌, if◌then◌else◌}

-- `none` is an access through a null pointer.
abbrev pub Run : Type 0 → Type 0 → Type 0
Run S A = S → Option (A × S)

abbrev pub pure : {S A : Type 0} → A → Run S A
pure a s = some (a, s)

abbrev pub and_then : {S A B : Type 0} → Option (A × S) → (A → Run S B) → Option (B × S)
and_then none f = none
and_then (some (a, s)) f = f a s

infixl 5 ◌>>=◌ ◌>>◌
abbrev pub ◌>>=◌ : {S A B : Type 0} → Run S A → (A → Run S B) → Run S B
m >>= f = λ s. and_then (m s) f

abbrev pub ◌>>◌ : {S B : Type 0} → Run S (Unit {0}) → Run S B → Run S B
m >> k = m >>= λ _. k

abbrev pub upd : {A : Type 0} → (ℕ → A) → ℕ → A → ℕ → A
upd f p v q = if q == p then v else f q

-- A run on a part of the state: what it leaves is put back.
abbrev pub zoomed : {S T A : Type 0} → Option (A × S) → (S → T) → Option (A × T)
zoomed none back = none
zoomed (some (a, s)) back = some (a, back s)
