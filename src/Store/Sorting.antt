-- ===== src/Store/Sorting.antt =====
-- internal/store/subscriptions.go: the order in which a query returns entries.
use olcrtc_panel_lite.Common.{
  ◌≡◌, Bool, true, false, List, [], ◌∷◌, Bool-cases, if_true, if_false, inl, inr, All, All-mono,
  arith,
}
use olcrtc_panel_lite.Model.{SubscriptionEntry}
use olcrtc_panel_lite.Store.Rows.{select_rows}
use olcrtc_panel_lite.Store.Keys.{All-both}
use olcrtc_panel_lite.Store.Subscriptions.{entry_le, insert_entry, sort_entries}

-- every pair of a list, the earlier element first
module _ {A : Type 0} (R : A → A → Type 0) where
  abbrev pub Pairwise : List A → Type 0
  Pairwise [] = Unit
  Pairwise (a ∷ rest) = All (R a) rest × Pairwise rest

pub All-every : {A : Type 0} (P : A → Type 0) (rows : List A) → ((a : A) → P a) → All P rows
All-every P [] k = tt
All-every P (a ∷ rows) k = (k a, All-every P rows k)

-- the order of a list that the query returns
abbrev pub Ordered : List SubscriptionEntry → Type 0
Ordered = Pairwise (λ e f. entry_le e f ≡ true)

entry_le_total : (e f : SubscriptionEntry) → entry_le e f ≡ false → entry_le f e ≡ true
unfolding entry_le
entry_le_total e f h = ground arith

entry_le_trans :
    (e f g : SubscriptionEntry) → entry_le e f ≡ true → entry_le f g ≡ true → entry_le e g ≡ true
unfolding entry_le
entry_le_trans e f g h k = ground arith

All-insert_entry :
    (P : SubscriptionEntry → Type 0) (e : SubscriptionEntry) (es : List SubscriptionEntry)
    → P e
    → All P es
    → All P (insert_entry e es)
unfolding insert_entry
All-insert_entry P e [] h k = (h, tt)
All-insert_entry P e (f ∷ fs) h k = elim (Bool-cases (entry_le e f)) [
  | inl t ↦ rw (if_true (entry_le e f) (e ∷ f ∷ fs) (f ∷ insert_entry e fs) t) (h, k)
  | inr t ↦
      rw (if_false (entry_le e f) (e ∷ f ∷ fs) (f ∷ insert_entry e fs) t)
        (k.0, All-insert_entry P e fs h k.1)
]

pub All-sort_entries :
    (P : SubscriptionEntry → Type 0) (es : List SubscriptionEntry)
    → All P es
    → All P (sort_entries es)
unfolding sort_entries
All-sort_entries P [] h = h
All-sort_entries P (e ∷ es) h =
    All-insert_entry P e (sort_entries es) h.0 (All-sort_entries P es h.1)

insert_entry-Ordered :
    (e : SubscriptionEntry) (es : List SubscriptionEntry) → Ordered es → Ordered (insert_entry e es)
unfolding insert_entry
insert_entry-Ordered e [] h = (tt, tt)
insert_entry-Ordered e (f ∷ fs) h = elim (Bool-cases (entry_le e f)) [
  | inl t ↦
      rw (if_true (entry_le e f) (e ∷ f ∷ fs) (f ∷ insert_entry e fs) t)
        ((t, All-mono fs (λ g k. entry_le_trans e f g t k) h.0), h)
  | inr t ↦ rw (if_false (entry_le e f) (e ∷ f ∷ fs) (f ∷ insert_entry e fs) t) (
    All-insert_entry (λ g. entry_le f g ≡ true) e fs (entry_le_total e f t) h.0,
    insert_entry-Ordered e fs h.1,
  )
]

pub sort_entries-Ordered : (es : List SubscriptionEntry) → Ordered (sort_entries es)
unfolding sort_entries
sort_entries-Ordered [] = tt
sort_entries-Ordered (e ∷ es) = insert_entry-Ordered e (sort_entries es) (sort_entries-Ordered es)

pub select_rows-All :
    {A : Type 0} (p : A → Bool) (P : A → Type 0) (rows : List A)
    → All (λ a. p a ≡ true → P a) rows
    → All P (select_rows p rows)
unfolding select_rows
select_rows-All p P [] h = tt
select_rows-All p P (a ∷ rows) h = elim (Bool-cases (p a)) [
  | inl t ↦ rw (if_true _ (a ∷ select_rows p rows) _ t) (h.0 t, select_rows-All p P rows h.1)
  | inr t ↦ rw (if_false _ (a ∷ select_rows p rows) _ t) (select_rows-All p P rows h.1)
]

pub Pairwise-mono :
    {A : Type 0} (R : A → A → Type 0) (P : A → Type 0) (S : A → A → Type 0)
    → ((a b : A) → P a → P b → R a b → S a b)
    → (rows : List A) → All P rows
    → Pairwise R rows
    → Pairwise S rows
Pairwise-mono R P S k [] h r = tt
Pairwise-mono R P S k (a ∷ rows) h r = (
  All-mono rows (λ b q. k a b h.0 q.0 q.1) (All-both _ _ rows h.1 r.0),
  Pairwise-mono R P S k rows h.1 r.1,
)
