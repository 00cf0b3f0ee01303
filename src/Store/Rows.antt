-- ===== src/Store/Rows.antt =====
-- Tables as lists of rows: what SELECT, UPDATE and DELETE with a condition do, and keys that no two
-- rows share.
use olcrtc_panel_lite.Common.{
  ◌≡◌, ◌≢◌, sym, ap, ◌∙◌, Bool, true, false, Option, none, some, List, [], ◌∷◌, if◌then◌else◌, All,
  Bool-cases, if_true, if_false, inl, inr,
}

module _ {A : Type 0} (p : A → Bool) where
  -- the first row that meets the condition
  unfoldable pub find_row : List A → Option A
  find_row [] = none
  find_row (a ∷ rows) = let later = find_row rows in if p a then some a else later

  -- UPDATE ... WHERE p
  unfoldable pub update_rows : (A → A) → List A → List A
  update_rows f [] = []
  update_rows f (a ∷ rows) = (if p a then f a else a) ∷ update_rows f rows

  -- SELECT ... WHERE p
  unfoldable pub select_rows : List A → List A
  select_rows [] = []
  select_rows (a ∷ rows) = let rest = select_rows rows in if p a then a ∷ rest else rest

  -- DELETE ... WHERE p
  unfoldable pub delete_rows : List A → List A
  delete_rows [] = []
  delete_rows (a ∷ rows) = let rest = delete_rows rows in if p a then rest else a ∷ rest

  module _ (P : A → Type 0) where
    pub All-update_rows :
        (f : A → A) (rows : List A)
        → ((a : A) → p a ≡ true → P a → P (f a))
        → All P rows
        → All P (update_rows f rows)
    unfolding update_rows
    All-update_rows f [] k h = tt
    All-update_rows f (a ∷ rows) k h = (
      elim (Bool-cases (p a)) [
        | inl e ↦ rw (if_true (p a) (f a) a e) (k a e h.0)
        | inr e ↦ rw (if_false (p a) (f a) a e) h.0
      ],
      All-update_rows f rows k h.1,
    )

    pub All-delete_rows : (rows : List A) → All P rows → All P (delete_rows rows)
    unfolding delete_rows
    All-delete_rows [] h = h
    All-delete_rows (a ∷ rows) h = elim (Bool-cases (p a)) [
      | inl e ↦
          rw (if_true (p a) (delete_rows rows) (a ∷ delete_rows rows) e) (All-delete_rows rows h.1)
      | inr e ↦
          rw (if_false (p a) (delete_rows rows) (a ∷ delete_rows rows) e)
            (h.0, All-delete_rows rows h.1)
    ]

    -- what the deleted rows were not
    pub delete_rows-All : (rows : List A) → ((a : A) → p a ≡ false → P a) → All P (delete_rows rows)
    unfolding delete_rows
    delete_rows-All [] k = tt
    delete_rows-All (a ∷ rows) k = elim (Bool-cases (p a)) [
      | inl e ↦
          rw (if_true (p a) (delete_rows rows) (a ∷ delete_rows rows) e) (delete_rows-All rows k)
      | inr e ↦
          rw (if_false (p a) (delete_rows rows) (a ∷ delete_rows rows) e)
            (k a e, delete_rows-All rows k)
    ]

    pub find_row-All : (rows : List A) (a : A) → All P rows → find_row rows ≡ some a → P a
    unfolding find_row
    find_row-All [] a h e = cc
    find_row-All (b ∷ rows) a h e = elim (Bool-cases (p b)) [
      | inl t ↦
          let q : ◌≡◌ {A = Option A} (some b) (some a) =
            sym (if_true (p b) (some b) (find_row rows) t) ∙ e in
          let r : b ≡ a = cc in rw (← r) h.0
      | inr t ↦ find_row-All rows a h.1 (sym (if_false (p b) (some b) (find_row rows) t) ∙ e)
    ]

  -- the row that is found meets the condition
  pub find_row-test : (rows : List A) (a : A) → find_row rows ≡ some a → p a ≡ true
  unfolding find_row
  find_row-test [] a e = cc
  find_row-test (b ∷ rows) a e = elim (Bool-cases (p b)) [
    | inl t ↦
        let q : ◌≡◌ {A = Option A} (some b) (some a) =
          sym (if_true (p b) (some b) (find_row rows) t) ∙ e in
        let r : b ≡ a = cc in rw (← r) t
    | inr t ↦ find_row-test rows a (sym (if_false (p b) (some b) (find_row rows) t) ∙ e)
  ]

-- no two rows share a key
module _ {A K : Type 0} (key : A → K) where
  abbrev pub Unique : List A → Type 0
  Unique [] = Unit
  Unique (a ∷ rows) = All (λ b. key b ≢ key a) rows × Unique rows

  pub Unique-delete_rows :
      (p : A → Bool) (rows : List A) → Unique rows → Unique (delete_rows p rows)
  unfolding delete_rows
  Unique-delete_rows p [] h = tt
  Unique-delete_rows p (a ∷ rows) h = elim (Bool-cases (p a)) [
    | inl e ↦
        rw (if_true (p a) (delete_rows p rows) (a ∷ delete_rows p rows) e)
          (Unique-delete_rows p rows h.1)
    | inr e ↦
        rw (if_false (p a) (delete_rows p rows) (a ∷ delete_rows p rows) e)
          (All-delete_rows p (λ b. key b ≢ key a) rows h.0, Unique-delete_rows p rows h.1)
  ]

  -- an update that leaves every key alone
  pub Unique-update_rows :
      (p : A → Bool) (f : A → A) (rows : List A)
      → ((a : A) → key (f a) ≡ key a)
      → Unique rows
      → Unique (update_rows p f rows)
  unfolding update_rows
  Unique-update_rows p f [] k h = tt
  Unique-update_rows p f (a ∷ rows) k h =
      let same : key (if p a then f a else a) ≡ key a = elim (Bool-cases (p a)) [
        | inl e ↦ ap key (if_true (p a) (f a) a e) ∙ k a
        | inr e ↦ ap key (if_false (p a) (f a) a e)
      ] in
      (
        rw same
            (All-update_rows p (λ b. key b ≢ key a) f rows (λ b t ne e. ne (sym (k b) ∙ e)) h.0),
        Unique-update_rows p f rows k h.1,
      )

-- INSERT: the row stands behind those that were there
unfoldable pub append_row : {A : Type 0} → List A → A → List A
append_row [] a = a ∷ []
append_row (b ∷ rows) a = b ∷ append_row rows a

pub All-append_row :
    {A : Type 0} (P : A → Type 0) (rows : List A) (a : A)
    → All P rows
    → P a
    → All P (append_row rows a)
unfolding append_row
All-append_row P [] a h k = (k, tt)
All-append_row P (b ∷ rows) a h k = (h.0, All-append_row P rows a h.1 k)

pub Unique-append_row :
    {A K : Type 0} (key : A → K) (rows : List A) (a : A)
    → All (λ b. key b ≢ key a) rows
    → Unique key rows
    → Unique key (append_row rows a)
unfolding append_row
Unique-append_row key [] a fresh h = (tt, tt)
Unique-append_row key (b ∷ rows) a fresh h = (
  All-append_row (λ c. key c ≢ key b) rows a h.0 (λ e. fresh.0 (sym e)),
  Unique-append_row key rows a fresh.1 h.1,
)
