-- ===== src/Store/Found.antt =====
-- Searches of a table behind its statements.
use olcrtc_panel_lite.Common.{
  ◌≡◌, refl, sym, ap, ◌∙◌, Bool, true, false, ◌||◌, none, some, List, [], ◌∷◌, if◌then◌else◌, any,
  Bool-cases, if_true, if_false, inl, inr,
}
use olcrtc_panel_lite.Store.Rows.{find_row, update_rows, append_row}

module _ {A : Type 0} (p : A → Bool) where
  pub find_row_of_any : (rows : List A) → any p rows ≡ true → (a : A) × (find_row p rows ≡ some a)
  unfolding find_row
  find_row_of_any [] h = cc
  find_row_of_any (a ∷ rows) h = elim (Bool-cases (p a)) [
    | inl e ↦ (a, if_true _ _ _ e)
    | inr e ↦
        let (b, f) = find_row_of_any rows (sym (ap (λ c. c || any p rows) e) ∙ h) in
        (b, if_false _ _ _ e ∙ f)
  ]

  pub any_of_find_row : (rows : List A) (a : A) → find_row p rows ≡ some a → any p rows ≡ true
  unfolding find_row
  any_of_find_row [] a h = cc
  any_of_find_row (b ∷ rows) a h = elim (Bool-cases (p b)) [
    | inl e ↦ ap (λ c. c || any p rows) e
    | inr e ↦ ap (λ c. c || any p rows) e ∙ any_of_find_row rows a (sym (if_false (p b) _ _ e) ∙ h)
  ]

  pub find_row-none : (rows : List A) → any p rows ≡ false → find_row p rows ≡ none
  unfolding find_row
  find_row-none [] h = refl
  find_row-none (a ∷ rows) h = elim (Bool-cases (p a)) [
    | inl e ↦ let q : true ≡ false = sym (ap (λ c. c || any p rows) e) ∙ h in cc
    | inr e ↦ if_false _ _ _ e ∙ find_row-none rows (sym (ap (λ c. c || any p rows) e) ∙ h)
  ]

  -- rows that the search passes over before and after the update
  pub find_row-update_rows_apart :
      (q : A → Bool) (f : A → A) (rows : List A)
      → ((a : A) → q a ≡ true → p a ≡ false)
      → ((a : A) → q a ≡ true → p (f a) ≡ false)
      → find_row p (update_rows q f rows) ≡ find_row p rows
  unfolding find_row update_rows
  find_row-update_rows_apart q f [] before after = refl
  find_row-update_rows_apart q f (a ∷ rows) before after =
      let rest = find_row-update_rows_apart q f rows before after in
      let first = λ (b : A). if p b then some b else find_row p (update_rows q f rows) in
      elim (Bool-cases (q a)) [
        | inl e ↦
            ap first (if_true _ _ _ e)
            ∙ (if_false _ _ _ (after a e) ∙ (rest ∙ sym (if_false _ _ _ (before a e))))
        | inr e ↦ ap first (if_false _ _ _ e) ∙ ap (λ l. if p a then some a else l) rest
      ]

  pub find_row-append_row :
      (rows : List A) (a : A)
      → any p rows ≡ false
      → find_row p (append_row rows a) ≡ (if p a then some a else none)
  unfolding find_row append_row
  find_row-append_row [] a h = refl
  find_row-append_row (b ∷ rows) a h = elim (Bool-cases (p b)) [
    | inl e ↦ let q : true ≡ false = sym (ap (λ c. c || any p rows) e) ∙ h in cc
    | inr e ↦ if_false _ _ _ e ∙ find_row-append_row rows a (sym (ap (λ c. c || any p rows) e) ∙ h)
  ]

  pub find_row-append_row_apart :
      (rows : List A) (a : A) → p a ≡ false → find_row p (append_row rows a) ≡ find_row p rows
  unfolding find_row append_row
  find_row-append_row_apart [] a h = if_false _ _ _ h
  find_row-append_row_apart (b ∷ rows) a h =
      ap (λ l. if p b then some b else l) (find_row-append_row_apart rows a h)
