-- ===== src/Base/Posts.antt =====
-- Postconditions of what may end without a result.
use packet_rusher.Base.Go.{Outcome, ok, panic, fatal, blocked, ◌>>=◌}

-- What holds of the result, if there is one.
abbrev pub Post : {A : Type 0} → (A → Type 0) → Outcome A → Type 0
Post P (ok a) = P a
Post P panic = Unit
Post P fatal = Unit
Post P blocked = Unit

pub bind :
    {A B : Type 0} (P : A → Type 0) (Q : B → Type 0) (o : Outcome A) (f : A → Outcome B)
    → Post P o
    → ((a : A) → P a → Post Q (f a))
    → Post Q (o >>= f)
bind P Q (ok a) f h k = k a h
bind P Q panic f h k = tt
bind P Q fatal f h k = tt
bind P Q blocked f h k = tt

pub after :
    {A B : Type 0} (Q : B → Type 0) (o : Outcome A) (f : A → Outcome B)
    → ((a : A) → Post Q (f a))
    → Post Q (o >>= f)
after Q (ok a) f k = k a
after Q panic f k = tt
after Q fatal f k = tt
after Q blocked f k = tt

pub weaken :
    {A : Type 0} (P Q : A → Type 0) (o : Outcome A) → Post P o → ((a : A) → P a → Q a) → Post Q o
weaken P Q (ok a) h k = k a h
weaken P Q panic h k = tt
weaken P Q fatal h k = tt
weaken P Q blocked h k = tt
