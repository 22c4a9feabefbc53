-- ===== src/Base/Go.antt =====
-- How a Go function can end: it returns, it panics (an index out of range, a nil pointer, a closed
-- channel), it calls `log.Fatal`, which ends the process, or it blocks for ever on a nil channel.
use Prim.Native.Nat.{ℕ, ◌/◌, ◌%◌, ◌^◌}
use mathlib.Core.Bool.{Bool, true, false}
use mathlib.Core.List.{List, [], ◌∷◌}
use mathlib.Core.Option.{Option, none, some}
use packet_rusher.Base.Lists.{get_elem?}

pub data Outcome {ℓ} (A : Type ℓ) : Type ℓ where
  ok : A → Outcome A
  panic : Outcome A
  fatal : Outcome A
  blocked : Outcome A

infixl 5 ◌>>=◌ ◌>>◌
abbrev pub ◌>>=◌ {ℓ κ} : {A : Type ℓ} {B : Type κ} → Outcome A → (A → Outcome B) → Outcome B
ok a >>= f = f a
panic >>= f = panic
fatal >>= f = fatal
blocked >>= f = blocked

abbrev pub ◌>>◌ {ℓ} : {B : Type ℓ} → Outcome (Unit {0}) → Outcome B → Outcome B
m >> k = m >>= λ _. k

-- `if bad { log.Fatal(...) }`.
abbrev pub fatal_if : Bool → Outcome (Unit {0})
fatal_if true = fatal
fatal_if false = ok tt

-- A dereference: of a nil pointer it panics.
abbrev pub deref {ℓ} : {A : Type ℓ} → Option A → Outcome A
deref none = panic
deref (some a) = ok a

-- `s[i]` on a string or a slice.
abbrev pub at {ℓ} : {A : Type ℓ} → List A → ℕ → Outcome A
at s i = deref (get_elem? s i)

-- `binary.BigEndian.PutUint32`.
abbrev pub put_uint32 : ℕ → List ℕ
put_uint32 v = v / 2 ^ 24 % 256 ∷ v / 2 ^ 16 % 256 ∷ v / 2 ^ 8 % 256 ∷ v % 256 ∷ []
