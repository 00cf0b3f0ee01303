-- ===== src/Common/Holds.antt =====
-- A test that a list passes, as a property of its elements.
use mathlib.Core.Path.{◌≡◌, sym, ap, ◌∙◌}
use mathlib.Core.Logic.{inl, inr}
use mathlib.Core.Bool.{Bool, true, false, ◌&&◌}
use mathlib.Core.List.{List, [], ◌∷◌}
use olcrtc_panel_lite.Common.Lists.{All, all}
use olcrtc_panel_lite.Common.Tests.{Bool-cases}

pub All-of_all {ℓ κ} :
    {A : Type ℓ} (p : A → Bool) (P : A → Type κ) (s : List A)
    → ((a : A) → p a ≡ true → P a)
    → all p s ≡ true
    → All P s
All-of_all p P [] k h = tt
All-of_all p P (a ∷ s) k h = elim (Bool-cases (p a)) [
  | inl e ↦ (k a e, All-of_all p P s k (sym (ap (λ b. b && all p s) e) ∙ h))
  | inr e ↦ let q : false ≡ true = sym (ap (λ b. b && all p s) e) ∙ h in cc
]
