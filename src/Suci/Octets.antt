-- ===== src/Suci/Octets.antt =====
-- Lists of octets that are put together and taken apart, as internal/common/sidf does.
use packet_rusher.Base.{ℕ, zero, suc, ◌≡◌, refl, ap, List, [], ◌∷◌, ◌++◌, arith, length, take, drop}
use packet_rusher.Plmn.Hex.{AllOctets}

pub AllOctets-append : (a b : List ℕ) → AllOctets a → AllOctets b → AllOctets (a ++ b)
AllOctets-append [] b h k = k
AllOctets-append (x ∷ a) b h k = (h.0, AllOctets-append a b h.1 k)

pub AllOctets-take : (n : ℕ) (a : List ℕ) → AllOctets a → AllOctets (take n a)
AllOctets-take zero a h = tt
AllOctets-take (suc n) [] h = tt
AllOctets-take (suc n) (x ∷ a) h = (h.0, AllOctets-take n a h.1)

pub take-append : (n : ℕ) (a b : List ℕ) → length a ≡ n → take n (a ++ b) ≡ a
take-append zero [] b h = refl
take-append zero (x ∷ a) b h = absurd (omega (arith, h))
take-append (suc n) [] b h = absurd (omega (arith, h))
take-append (suc n) (x ∷ a) b h = ap (λ r. x ∷ r) (take-append n a b (omega (arith, h)))

pub drop-append : (n : ℕ) (a b : List ℕ) → length a ≡ n → drop n (a ++ b) ≡ b
drop-append zero [] b h = refl
drop-append zero (x ∷ a) b h = absurd (omega (arith, h))
drop-append (suc n) [] b h = absurd (omega (arith, h))
drop-append (suc n) (x ∷ a) b h = drop-append n a b (omega (arith, h))
