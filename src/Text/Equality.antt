-- ===== src/Text/Equality.antt =====
-- The test `==` on texts decides equality.
use olcrtc_panel_lite.Common.{
  ◌≡◌, refl, ◌↔◌, true, false, [], ◌∷◌, arith, ◌⊎◌, inl, inr, Bool-cases,
}
use olcrtc_panel_lite.Text.{Text, text_eq}

pub text_eq→eq : (s t : Text) → text_eq s t ≡ true → s ≡ t
unfolding text_eq
text_eq→eq [] [] h = refl
text_eq→eq [] (d ∷ t) h = cc
text_eq→eq (c ∷ s) [] h = cc
text_eq→eq (c ∷ s) (d ∷ t) h = ground (arith, text_eq→eq s t)

pub text_eq_refl : (s : Text) → text_eq s s ≡ true
unfolding text_eq
text_eq_refl [] = refl
text_eq_refl (c ∷ s) = ground (arith, text_eq_refl s)

pub text_eq_iff : (s t : Text) → (text_eq s t ≡ true) ↔ (s ≡ t)
text_eq_iff s t = (text_eq→eq s t, λ e. rw e (text_eq_refl t))

pub text_eq-cases : (s t : Text) → (s ≡ t) ⊎ (text_eq s t ≡ false)
text_eq-cases s t = elim (Bool-cases (text_eq s t)) [
  | inl e ↦ inl (text_eq→eq s t e)
  | inr e ↦ inr e
]
