-- ===== src/Common/Lists.antt =====
-- Lists measured and indexed by native numbers, under the library's names, and `All`.
use Prim.Native.Nat.{ℕ, zero, suc, ◌+◌}
use mathlib.Core.Path.{◌≡◌, refl, ap}
use mathlib.Core.Logic.{◌≢◌}
use mathlib.Core.Bool.{Bool, true, false, ◌||◌, ◌&&◌}
use mathlib.Core.List.{List, [], ◌∷◌, ◌++◌, append_assoc}
use native.Mathlib.Omega.{arith}

module _ {ℓ} {A : Type ℓ} where
  abbrev pub length : List A → ℕ
  length [] = 0
  length (x ∷ xs) = suc (length xs)

  abbrev pub take : ℕ → List A → List A
  take zero xs = []
  take (suc n) [] = []
  take (suc n) (x ∷ xs) = x ∷ take n xs

  abbrev pub drop : ℕ → List A → List A
  drop zero xs = xs
  drop (suc n) [] = []
  drop (suc n) (x ∷ xs) = drop n xs

  pub length-append : (xs ys : List A) → length (xs ++ ys) ≡ length xs + length ys
  length-append [] ys = omega arith
  length-append (x ∷ xs) ys = omega (arith, length-append xs ys)

  pub take-append : (xs ys : List A) → take (length xs) (xs ++ ys) ≡ xs
  take-append [] ys = refl
  take-append (x ∷ xs) ys = ap (λ l. x ∷ l) (take-append xs ys)

  pub take_all : (xs : List A) → take (length xs) xs ≡ xs
  take_all [] = refl
  take_all (x ∷ xs) = ap (λ l. x ∷ l) (take_all xs)

  pub drop-append : (xs ys : List A) → drop (length xs) (xs ++ ys) ≡ ys
  drop-append [] ys = refl
  drop-append (x ∷ xs) ys = drop-append xs ys

module _ {ℓ} {A : Type ℓ} where
  -- behind the first `c`, whose index is the length of what stands before it
  pub drop-append_suc : (s : List A) (c : A) (t : List A) → drop (suc (length s)) (s ++ c ∷ t) ≡ t
  drop-append_suc [] c t = refl
  drop-append_suc (d ∷ s) c t = drop-append_suc s c t

  pub drop-append_add_one : (s : List A) (c : A) (t : List A) → drop (length s + 1) (s ++ c ∷ t) ≡ t
  drop-append_add_one s c t =
      let e : length s + 1 ≡ suc (length s) = omega arith in rw e (drop-append_suc s c t)

module _ {ℓ} {A : Type ℓ} (h j f : List A) where
  pub take-append_middle : take (length h + length j) (h ++ (j ++ f)) ≡ h ++ j
  take-append_middle = rw (← length-append h j) (rw (← append_assoc h j f) (take-append (h ++ j) f))

  pub drop-append_middle : drop (length h + length j) (h ++ (j ++ f)) ≡ f
  drop-append_middle = rw (← length-append h j) (rw (← append_assoc h j f) (drop-append (h ++ j) f))

  -- the slice between two lengths
  pub drop-take-append : drop (length h) (take (length h + length j) (h ++ (j ++ f))) ≡ j
  drop-take-append = rw take-append_middle (drop-append h j)

module _ {ℓ κ} {A : Type ℓ} (P : A → Type κ) where
  abbrev pub All : List A → Type κ
  All [] = Unit
  All (x ∷ xs) = P x × All xs

  pub All-append : (xs ys : List A) → All xs → All ys → All (xs ++ ys)
  All-append [] ys _ hy = hy
  All-append (x ∷ xs) ys (px, hx) hy = (px, All-append xs ys hx hy)

module _ {ℓ κ ι} {A : Type ℓ} where
  pub All-mono :
      {P : A → Type κ} {Q : A → Type ι} (xs : List A) → ((x : A) → P x → Q x) → All P xs → All Q xs
  All-mono [] f h = tt
  All-mono (x ∷ xs) f (px, h) = (f x px, All-mono xs f h)

module _ {ℓ} {A : Type ℓ} (p : A → Bool) where
  abbrev pub any : List A → Bool
  any [] = false
  any (x ∷ xs) = p x || any xs

  abbrev pub all : List A → Bool
  all [] = true
  all (x ∷ xs) = p x && all xs

-- no element is `c`
abbrev pub Lacks : ℕ → List ℕ → Type 0
Lacks c = All (λ x. x ≢ c)
