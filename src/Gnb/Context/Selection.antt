-- ===== src/Gnb/Context/Selection.antt =====
-- The choice of an AMF for a UE, whatever the order in which the pool is visited.
use mathlib.Core.List.{Memᴰ}
use packet_rusher.Base.{
  ◌≡◌, refl, subst, Bool, true, ◌&&◌, ◌⊎◌, inl, inr, Option, none, some, List, [], ◌∷◌, arith,
  Bool-cases,
}
use packet_rusher.Base.Int.{ℤ, pos, negsuc, ◌≤ℤ◌, ltb_ℤ}
use packet_rusher.Gnb.Amf.{GnbAmf}
use packet_rusher.Gnb.Context.{select_loop, select_amf_by_active, select_amf_by_capacity, is_active}

abbrev weight : GnbAmf → ℤ
weight amf = amf.tnla.tnla_weight_factor

-- No eligible AMF of the list has a greater weight.
abbrev pub AllAtMost : (GnbAmf → Bool) → ℤ → List GnbAmf → Type 0
AllAtMost eligible w [] = Unit {0}
AllAtMost eligible w (amf ∷ rest) =
    (eligible amf ≡ true → weight amf ≤ℤ w) × AllAtMost eligible w rest

AllAtMost-mono :
    (eligible : GnbAmf → Bool) (v w : ℤ) (l : List GnbAmf)
    → v ≤ℤ w
    → AllAtMost eligible v l
    → AllAtMost eligible w l
AllAtMost-mono eligible v w [] h a = tt
AllAtMost-mono eligible v w (amf ∷ rest) h a =
    (λ e. (let below = a.0 e in omega arith), AllAtMost-mono eligible v w rest h a.1)

-- The result: nothing better than the start, or an eligible AMF of the list with the greatest weight.
abbrev pub Selects : (GnbAmf → Bool) → Option GnbAmf → ℤ → List GnbAmf → Option GnbAmf → Type 0
Selects eligible start w l result =
    ((result ≡ start) × AllAtMost eligible w l)
    ⊎ ((amf : GnbAmf) × (result ≡ some amf)
        × Memᴰ amf l
        × (eligible amf ≡ true)
        × (ltb_ℤ w (weight amf) ≡ true)
        × AllAtMost eligible (weight amf) l)

select_loop-Selects :
    (eligible : GnbAmf → Bool) (start : Option GnbAmf) (w : ℤ) (l : List GnbAmf)
    → Selects eligible start w l (select_loop eligible start w l)
unfolding select_loop
select_loop-Selects eligible start w [] = inl (refl, tt)
select_loop-Selects eligible start w (x ∷ rest) =
    elim (Bool-cases (eligible x && ltb_ℤ w (weight x))) [
      | inl better ↦ rw better (elim (select_loop-Selects eligible (some x) (weight x) rest) [
        | inl (same, below) ↦
            inr (x, same, Memᴰ.head refl, ground arith, ground arith, ((λ e. omega arith), below))
        | inr (amf, found, here, fit, above, below) ↦
            inr (amf, found, Memᴰ.tail here, fit, ground arith, ((λ e. ground arith), below))
      ])
      | inr worse ↦ rw worse (elim (select_loop-Selects eligible start w rest) [
        | inl (same, below) ↦ inl (same, ((λ e. ground arith), below))
        | inr (amf, found, here, fit, above, below) ↦
            inr (amf, found, Memᴰ.tail here, fit, above, ((λ e. ground arith), below))
      ])
    ]

-- What a selection promises. No AMF: every eligible one has a negative weight. An AMF: it is an
-- eligible entry with a weight of at least 0, and no eligible entry has a greater one.
abbrev pub IsBest : (GnbAmf → Bool) → List GnbAmf → Option GnbAmf → Type 0
IsBest eligible order none = AllAtMost eligible (negsuc 0) order
IsBest eligible order (some amf) =
    Memᴰ amf order
    × (eligible amf ≡ true)
    × (pos 0 ≤ℤ weight amf)
    × AllAtMost eligible (weight amf) order

above_zero : (amf : GnbAmf) → ltb_ℤ (negsuc 0) (weight amf) ≡ true → pos 0 ≤ℤ weight amf
above_zero amf h = ground arith

IsBest-of_Selects :
    (eligible : GnbAmf → Bool) (order : List GnbAmf) (result : Option GnbAmf)
    → Selects eligible none (negsuc 0) order result
    → IsBest eligible order result
IsBest-of_Selects eligible order none (inl h) = h.1
IsBest-of_Selects eligible order none (inr h) = cc (h.1)
IsBest-of_Selects eligible order (some amf) (inl h) = cc (h.0)
IsBest-of_Selects eligible order (some amf) (inr (b, found, here, fit, above, below)) =
    let same : b ≡ amf = cc in
    subst (λ a. IsBest eligible order (some a)) same (here, fit, above_zero b above, below)

-- Both selections, of an active AMF and of one with capacity left, return an eligible AMF whose weight
-- no eligible AMF exceeds, in whatever order the pool is visited, or none if every eligible AMF has a
-- negative weight.
pub select_amf-IsBest :
    (order : List GnbAmf)
    → IsBest (λ amf. is_active amf.state) order (select_amf_by_active order)
      × IsBest (λ amf. ltb_ℤ (pos 0) amf.relative_amf_capacity) order (select_amf_by_capacity order)
unfolding select_amf_by_active select_amf_by_capacity
select_amf-IsBest order = (
  IsBest-of_Selects _ order _ (select_loop-Selects _ none (negsuc 0) order),
  IsBest-of_Selects _ order _ (select_loop-Selects _ none (negsuc 0) order),
)
