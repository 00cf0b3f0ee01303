-- ===== src/Store/Keys.antt =====
-- Keys of tables: what the statements of Store.Rows keep of them.
use olcrtc_panel_lite.Common.{
  ℕ, ◌<◌, ◌≡◌, ◌≢◌, refl, sym, ap, ◌∙◌, Bool, true, false, ◌||◌, Option, some, List, [], ◌∷◌, ◌==◌,
  ==_iff, any, if◌then◌else◌, All, All-mono, Bool-cases, if_true, if_false, inl, inr,
}
use olcrtc_panel_lite.Text.{Text, text_eq}
use olcrtc_panel_lite.Text.Equality.{text_eq_refl}
use olcrtc_panel_lite.Store.Rows.{
  find_row, update_rows, select_rows, delete_rows, append_row, All-update_rows, Unique,
}

-- a row whose test with a key fails has another key
pub ≢-of_== : (a b : ℕ) → (a == b) ≡ false → a ≢ b
≢-of_== a b h e = let t = (==_iff a b).1 e in cc

pub ==_false : (a b : ℕ) → a ≢ b → (a == b) ≡ false
==_false a b h = elim (Bool-cases (a == b)) [ inl e ↦ absurd (h ((==_iff a b).0 e)) | inr e ↦ e ]

pub ≢-of_text_eq : (s t : Text) → text_eq s t ≡ false → s ≢ t
≢-of_text_eq s t h e = let k : text_eq s t ≡ true = rw e (text_eq_refl t) in cc

or_rest : (b c d : Bool) → (b || c) ≡ true → (b || d) ≡ false → c ≡ true
or_rest true c d h k = cc
or_rest false c d h k = h

pub or_false : (b c : Bool) → (b || c) ≡ false → c ≡ false
or_false true c h = cc
or_false false c h = h

module _ {A : Type 0} where
  -- an AUTOINCREMENT key: no two rows share it, and it stands below the next one
  abbrev pub Numbered : (A → ℕ) → List A → ℕ → Type 0
  Numbered key rows next = Unique key rows × All (λ a. key a < next) rows

  pub All-of_any-false :
      (p : A → Bool) (rows : List A) → any p rows ≡ false → All (λ a. p a ≡ false) rows
  All-of_any-false p [] h = tt
  All-of_any-false p (a ∷ rows) h = elim (Bool-cases (p a)) [
    | inl e ↦ cc
    | inr e ↦ (e, All-of_any-false p rows (sym (ap (λ b. b || any p rows) e) ∙ h))
  ]

  pub any_mono :
      (p q : A → Bool) (rows : List A)
      → ((a : A) → p a ≡ true → q a ≡ true)
      → any p rows ≡ true
      → any q rows ≡ true
  any_mono p q [] k h = h
  any_mono p q (a ∷ rows) k h = elim (Bool-cases (p a)) [
    | inl e ↦ ap (λ b. b || any q rows) (k a e)
    | inr e ↦
        let h' = any_mono p q rows k (sym (ap (λ b. b || any p rows) e) ∙ h) in
        elim (Bool-cases (q a)) [
          | inl d ↦ ap (λ b. b || any q rows) d
          | inr d ↦ ap (λ b. b || any q rows) d ∙ h'
        ]
  ]

  pub any-append_row_old :
      (p : A → Bool) (rows : List A) (a : A) → any p rows ≡ true → any p (append_row rows a) ≡ true
  unfolding append_row
  any-append_row_old p [] a h = cc
  any-append_row_old p (b ∷ rows) a h = elim (Bool-cases (p b)) [
    | inl e ↦ ap (λ c. c || any p (append_row rows a)) e
    | inr e ↦
        ap (λ c. c || any p (append_row rows a)) e
        ∙ any-append_row_old p rows a (sym (ap (λ c. c || any p rows) e) ∙ h)
  ]

  pub any-append_row_new :
      (p : A → Bool) (rows : List A) (a : A) → p a ≡ true → any p (append_row rows a) ≡ true
  unfolding append_row
  any-append_row_new p [] a h = ap (λ c. c || false) h
  any-append_row_new p (b ∷ rows) a h = elim (Bool-cases (p b)) [
    | inl e ↦ ap (λ c. c || any p (append_row rows a)) e
    | inr e ↦ ap (λ c. c || any p (append_row rows a)) e ∙ any-append_row_new p rows a h
  ]

  -- an update that leaves the test alone
  pub any-update_rows :
      (p q : A → Bool) (f : A → A) (rows : List A)
      → ((a : A) → p (f a) ≡ p a)
      → any p (update_rows q f rows) ≡ any p rows
  unfolding update_rows
  any-update_rows p q f [] k = refl
  any-update_rows p q f (a ∷ rows) k =
      let same : p (if q a then f a else a) ≡ p a = elim (Bool-cases (q a)) [
        | inl e ↦ ap p (if_true (q a) (f a) a e) ∙ k a
        | inr e ↦ ap p (if_false (q a) (f a) a e)
      ] in
      ap (λ b. b || any p (update_rows q f rows)) same
      ∙ ap (λ b. p a || b) (any-update_rows p q f rows k)

  -- a row that is not deleted is still there
  pub any-delete_rows :
      (p q : A → Bool) (rows : List A)
      → ((a : A) → p a ≡ true → q a ≡ false)
      → any p rows ≡ true
      → any p (delete_rows q rows) ≡ true
  unfolding delete_rows
  any-delete_rows p q [] k h = h
  any-delete_rows p q (a ∷ rows) k h =
      let rest = delete_rows q rows in
      elim (Bool-cases (p a)) [
        | inl e ↦ rw (if_false (q a) rest (a ∷ rest) (k a e)) (ap (λ b. b || any p rest) e)
        | inr e ↦
            let h' = any-delete_rows p q rows k (sym (ap (λ b. b || any p rows) e) ∙ h) in
            elim (Bool-cases (q a)) [
              | inl d ↦ rw (if_true (q a) rest (a ∷ rest) d) h'
              | inr d ↦ rw (if_false (q a) rest (a ∷ rest) d) (ap (λ b. b || any p rest) e ∙ h')
            ]
      ]

  -- a row that is found is selected or left by a delete
  pub any-delete_rows_rest :
      (p q : A → Bool) (rows : List A)
      → any p rows ≡ true
      → any p (select_rows q rows) ≡ false
      → any p (delete_rows q rows) ≡ true
  unfolding select_rows delete_rows
  any-delete_rows_rest p q [] h k = h
  any-delete_rows_rest p q (a ∷ rows) h k =
      let kept = delete_rows q rows in
      let chosen = select_rows q rows in
      elim (Bool-cases (q a)) [
        | inl d ↦
            let k' = ap (any p) (sym (if_true (q a) (a ∷ chosen) chosen d)) ∙ k in
            rw (if_true (q a) kept (a ∷ kept) d)
              (any-delete_rows_rest p q rows (or_rest (p a) _ _ h k') (or_false (p a) _ k'))
        | inr d ↦
            let k' = ap (any p) (sym (if_false (q a) (a ∷ chosen) chosen d)) ∙ k in
            rw (if_false (q a) kept (a ∷ kept) d) (elim (Bool-cases (p a)) [
              | inl e ↦ ap (λ b. b || any p kept) e
              | inr e ↦
                  ap (λ b. b || any p kept) e
                  ∙ any-delete_rows_rest p q rows (sym (ap (λ b. b || any p rows) e) ∙ h) k'
            ])
      ]

  pub All-both :
      (P Q : A → Type 0) (rows : List A) → All P rows → All Q rows → All (λ a. P a × Q a) rows
  All-both P Q [] g h = tt
  All-both P Q (a ∷ rows) g h = ((g.0, h.0), All-both P Q rows g.1 h.1)

  -- the one row of an identifier takes a key that no other row has
  pub Unique-set_key :
      {K : Type 0} (id : A → ℕ) (k : ℕ) (key : A → K) (new : K) (f : A → A) (rows : List A)
      → ((a : A) → key (f a) ≡ new)
      → All (λ a. (id a == k) ≡ false → key a ≢ new) rows
      → Unique id rows
      → Unique key rows
      → Unique key (update_rows (λ a. id a == k) f rows)
  unfolding update_rows
  Unique-set_key id k key new f [] to_new other u v = tt
  Unique-set_key id k key new f (a ∷ rows) to_new other u v =
      let rest = Unique-set_key id k key new f rows to_new other.1 u.1 v.1 in
      elim (Bool-cases (id a == k)) [
        | inl e ↦
            let is_k : id a ≡ k = (==_iff (id a) k).0 e in
            let others =
              All-both (λ b. (id b == k) ≡ false → key b ≢ new) (λ b. id b ≢ id a) rows other.1
                u.0 in
            let kept =
              All-update_rows (λ b. id b == k)
                (λ b. ((id b == k) ≡ false → key b ≢ new) × (id b ≢ id a)) f rows
                (λ b t h. absurd (h.1 ((==_iff (id b) k).0 t ∙ sym is_k))) others in
            let differs =
              All-mono (update_rows (λ b. id b == k) f rows)
                (λ b h q. h.0 (==_false (id b) k (λ t. h.1 (t ∙ sym is_k))) (q ∙ to_new a)) kept in
            (rw (if_true _ (f a) a e) differs, rest)
        | inr e ↦ (
          rw (if_false _ (f a) a e) (
              All-update_rows (λ b. id b == k) (λ b. key b ≢ key a) f rows
                (λ b t ne q. other.0 e (sym q ∙ to_new b)) v.0),
          rest,
        )
      ]

  -- what an update does to the row that a search finds
  pub find_row-update_rows :
      (p q : A → Bool) (f : A → A) (rows : List A) (a : A)
      → ((b : A) → p (f b) ≡ p b)
      → find_row p rows ≡ some a
      → find_row p (update_rows q f rows) ≡ some (if q a then f a else a)
  unfolding find_row update_rows
  find_row-update_rows p q f [] a k h = cc
  find_row-update_rows p q f (b ∷ rows) a k h =
      let same : p (if q b then f b else b) ≡ p b = elim (Bool-cases (q b)) [
        | inl e ↦ ap p (if_true (q b) (f b) b e) ∙ k b
        | inr e ↦ ap p (if_false (q b) (f b) b e)
      ] in
      elim (Bool-cases (p b)) [
        | inl e ↦
            let first : ◌≡◌ {A = Option A} (some b) (some a) = sym (if_true (p b) _ _ e) ∙ h in
            let r : b ≡ a = cc in
            if_true _ _ _ (same ∙ e) ∙ ap (λ c. some (if q c then f c else c)) r
        | inr e ↦
            if_false _ _ _ (same ∙ e)
            ∙ find_row-update_rows p q f rows a k (sym (if_false (p b) _ _ e) ∙ h)
      ]
