-- ===== src/Store/Reorder.antt =====
-- ReorderSubscriptionEntries of internal/store/subscriptions.go: the entries are listed in the order that
-- was asked for.
use olcrtc_panel_lite.Common.{
  ℕ, suc, ◌+◌, ◌≤◌, ◌<◌, ◌≡◌, refl, sym, ap, ◌∙◌, Bool, true, false, not, ◌||◌, ◌&&◌, Option, none,
  some, List, [], ◌∷◌, ok, any, leb, slt, ◌==◌, ==_iff, if◌then◌else◌, map, length, Option-cases,
  Bool-cases, if_true, if_false, inl, inr, All, All-mono, arith, two_63,
}
use olcrtc_panel_lite.Model.{SubscriptionEntry, Time}
use olcrtc_panel_lite.Store.Rows.{update_rows, select_rows, All-update_rows, Unique}
use olcrtc_panel_lite.Store.Keys.{All-both}
use olcrtc_panel_lite.Store.Sorting.{
  Pairwise, All-every, All-sort_entries, sort_entries-Ordered, select_rows-All, Pairwise-mono,
}
use olcrtc_panel_lite.Store.Db.{Db}
use olcrtc_panel_lite.Store.Subscriptions.{is_of, entry_le, sort_entries, subscription_entries}
use olcrtc_panel_lite.Store.Entries.{
  is_entry, placed, reorder_from, reordered, reorder_subscription_entries,
}

-- where an identifier stands in a list, its length if nowhere
abbrev pub position : ℕ → List ℕ → ℕ
position id [] = 0
position id (x ∷ xs) = if x == id then 0 else suc (position id xs)

and_right : (b c : Bool) → (b && c) ≡ true → c ≡ true
and_right true c h = h
and_right false c h = cc

module _ (subscription : ℕ) (now : Time) where
  is_entry-id : (x : ℕ) (a : SubscriptionEntry) → is_entry subscription x a ≡ true → a.id ≡ x
  is_entry-id x a h = (==_iff a.id x).0 (and_right (a.subscription_id == subscription) _ h)

  reorder_from-All :
      (P : SubscriptionEntry → Type 0) (order : ℕ) (ids : List ℕ)
      (rows later : List SubscriptionEntry)
      → All
          (λ x.
            (e : SubscriptionEntry) (n : ℕ)
            → is_entry subscription x e ≡ true
            → P e
            → P (placed n now e))
          ids
      → reorder_from subscription order ids now rows ≡ some later
      → All P rows
      → All P later
  unfolding reorder_from
  reorder_from-All P order [] rows later k e h = let same : rows ≡ later = cc in rw (← same) h
  reorder_from-All P order (id ∷ ids) rows later k e h =
      elim (Bool-cases (any (is_entry subscription id) rows)) [
        | inl t ↦ reorder_from-All P (suc order) ids _ later k.1 (sym (if_true _ _ _ t) ∙ e) (
            All-update_rows (is_entry subscription id) P (placed order now) rows
              (λ a s p. k.0 a order s p) h)
        | inr t ↦
            let q : ◌≡◌ {A = Option (List SubscriptionEntry)} none (some later) =
              sym (if_false _ _ _ t) ∙ e in
            cc
      ]

  All-updated :
      (order id : ℕ) (rows : List SubscriptionEntry)
      → All
          (λ a. is_entry subscription id a ≡ true → a.sort_order ≡ order)
          (update_rows (is_entry subscription id) (placed order now) rows)
  unfolding update_rows placed
  All-updated order id [] = tt
  All-updated order id (a ∷ rows) = (
    elim (Bool-cases (is_entry subscription id a)) [
      | inl t ↦ rw (if_true _ (placed order now a) a t) (λ h. refl)
      | inr t ↦
          rw (if_false _ (placed order now a) a t) (λ h. let q : true ≡ false = sym h ∙ t in cc)
    ],
    All-updated order id rows,
  )

  same_entry :
      (id x n : ℕ) (a : SubscriptionEntry)
      → is_entry subscription x a ≡ true
      → is_entry subscription id (placed n now a) ≡ true
      → x ≡ id
  unfolding placed
  same_entry id x n a s d = sym (is_entry-id x a s) ∙ is_entry-id id (placed n now a) d

  place_split :
      (order id : ℕ) (ids : List ℕ) (a : SubscriptionEntry)
      → (is_entry subscription id a ≡ true → a.sort_order ≡ order)
      → (is_of subscription a ≡ true
          → any (λ x. x == a.id) ids ≡ true
          → a.sort_order ≡ suc order + position a.id ids)
      → is_of subscription a ≡ true
      → any (λ x. x == a.id) (id ∷ ids) ≡ true
      → a.sort_order ≡ order + position a.id (id ∷ ids)
  place_split order id ids a first later s m = elim (Bool-cases (id == a.id)) [
    | inl q ↦
        let back : (a.id == id) ≡ true = (==_iff a.id id).1 (sym ((==_iff id a.id).0 q)) in
        let here : is_entry subscription id a ≡ true = rw s back in
        let zeroth : position a.id (id ∷ ids) ≡ 0 = if_true _ _ _ q in
        let o = first here in omega arith
    | inr q ↦
        let next : position a.id (id ∷ ids) ≡ suc (position a.id ids) = if_false _ _ _ q in
        let o = later s (sym (ap (λ b. b || any (λ x. x == a.id) ids) q) ∙ m) in omega arith
  ]

  -- an entry takes the place of its identifier, counted from `order`
  reorder_from-sort_order :
      (order : ℕ) (ids : List ℕ) (rows later : List SubscriptionEntry)
      → Unique (λ x. x) ids
      → reorder_from subscription order ids now rows ≡ some later
      → All
          (λ e.
            is_of subscription e ≡ true
            → any (λ x. x == e.id) ids ≡ true
            → e.sort_order ≡ order + position e.id ids)
          later
  unfolding reorder_from
  reorder_from-sort_order order [] rows later u e = All-every _ later (λ a t h. cc)
  reorder_from-sort_order order (id ∷ ids) rows later u e =
      elim (Bool-cases (any (is_entry subscription id) rows)) [
        | inl t ↦
            let moved = update_rows (is_entry subscription id) (placed order now) rows in
            let e' : reorder_from subscription (suc order) ids now moved ≡ some later =
              sym (if_true _ _ _ t) ∙ e in
            let first =
              reorder_from-All (λ a. is_entry subscription id a ≡ true → a.sort_order ≡ order)
                (suc order) ids moved later
                (All-mono ids (λ x ne a n s p d. absurd (ne (same_entry id x n a s d))) u.0) e'
                (All-updated order id rows) in
            All-mono later (λ a p. place_split order id ids a p.0 p.1)
              (All-both _ _ later first
                (reorder_from-sort_order (suc order) ids moved later u.1 e'))
        | inr t ↦
            let q : ◌≡◌ {A = Option (List SubscriptionEntry)} none (some later) =
              sym (if_false _ _ _ t) ∙ e in
            cc
      ]

-- identifiers are left alone
ids-update_rows :
    (p : SubscriptionEntry → Bool) (order : ℕ) (now : Time) (rows : List SubscriptionEntry)
    → map (λ e. e.id) (update_rows p (placed order now) rows) ≡ map (λ e. e.id) rows
unfolding update_rows placed
ids-update_rows p order now [] = refl
ids-update_rows p order now (a ∷ rows) =
    let same : (if p a then placed order now a else a).id ≡ a.id = elim (Bool-cases (p a)) [
      | inl e ↦ ap (λ b. b.id) (if_true (p a) (placed order now a) a e)
      | inr e ↦ ap (λ b. b.id) (if_false (p a) (placed order now a) a e)
    ] in
    ap (λ n. n ∷ map (λ e. e.id) (update_rows p (placed order now) rows)) same
    ∙ ap (λ l. a.id ∷ l) (ids-update_rows p order now rows)

ids-reorder_from :
    (subscription order : ℕ) (ids : List ℕ) (now : Time) (rows later : List SubscriptionEntry)
    → reorder_from subscription order ids now rows ≡ some later
    → map (λ e. e.id) later ≡ map (λ e. e.id) rows
unfolding reorder_from
ids-reorder_from subscription order [] now rows later e =
    let same : rows ≡ later = cc in ap (map (λ a. a.id)) (sym same)
ids-reorder_from subscription order (id ∷ ids) now rows later e =
    elim (Bool-cases (any (is_entry subscription id) rows)) [
      | inl t ↦
          ids-reorder_from subscription (suc order) ids now _ later (sym (if_true _ _ _ t) ∙ e)
          ∙ ids-update_rows (is_entry subscription id) order now rows
      | inr t ↦
          let q : ◌≡◌ {A = Option (List SubscriptionEntry)} none (some later) =
            sym (if_false _ _ _ t) ∙ e in
          cc
    ]

placed_asked :
    (subscription n : ℕ) (now : Time) (a : SubscriptionEntry) (ids : List ℕ)
    → (is_of subscription a ≡ true → any (λ x. x == a.id) ids ≡ true)
    → is_of subscription (placed n now a) ≡ true
    → any (λ x. x == (placed n now a).id) ids ≡ true
unfolding placed
placed_asked subscription n now a ids p = p

fails : (db : Db) → (reordered db none).1 ≡ ok tt → ⊥
unfolding reordered
fails db e = cc

position_bound : (id : ℕ) (ids : List ℕ) → position id ids ≤ length ids
position_bound id [] = omega arith
position_bound id (x ∷ xs) = ground (arith, position_bound id xs)

not_above :
    (m n i j : ℕ) → m < two_63 → n < two_63 → (slt m n || (not (slt n m) && leb i j)) ≡ true → m ≤ n
not_above m n i j hm hn h = ground arith

position_le :
    (ids : List ℕ) (a b : SubscriptionEntry)
    → length ids < two_63
    → a.sort_order ≡ position a.id ids
    → b.sort_order ≡ position b.id ids
    → entry_le a b ≡ true
    → position a.id ids ≤ position b.id ids
unfolding entry_le
position_le ids a b small p q le =
    let i = position_bound a.id ids in
    let j = position_bound b.id ids in
    rw (← p, ← q) (not_above a.sort_order b.sort_order (a.id) (b.id) (omega arith) (omega arith) le)

-- A reordering that succeeds on distinct identifiers, among which each entry of the subscription has
-- its own, lists the entries in the order of these identifiers, and adds and drops no entry.
pub reorder_subscription_entries_sorts :
    (db : Db) (subscription : ℕ) (ids : List ℕ) (now : Time)
    → Unique (λ x. x) ids
    → length ids < two_63
    → All (λ e. is_of subscription e ≡ true → any (λ x. x == e.id) ids ≡ true) db.entries
    → (reorder_subscription_entries db subscription ids now).1 ≡ ok tt
    → let later = (reorder_subscription_entries db subscription ids now).0 in
      Pairwise
        (λ e f. position e.id ids ≤ position f.id ids)
        (subscription_entries later subscription)
      × (map (λ e. e.id) later.entries ≡ map (λ e. e.id) db.entries)
unfolding reorder_subscription_entries reordered subscription_entries
reorder_subscription_entries_sorts db subscription ids now u small complete h =
    elim (Option-cases (reorder_from subscription 0 ids now db.entries)) [
      | inl e ↦ absurd (fails db (sym (ap (λ o. (reordered db o).1) e) ∙ h))
      | inr (later, e) ↦ rw e (
          let asked =
            reorder_from-All subscription now
              (λ a. is_of subscription a ≡ true → any (λ x. x == a.id) ids ≡ true) 0 ids db.entries
              later (All-every _ ids (λ x a n s p. placed_asked subscription n now a ids p)) e
              complete in
          let at_place =
            select_rows-All (is_of subscription) (λ a. a.sort_order ≡ position a.id ids) later
              (All-mono later (λ a p t. let q = p.1 t (p.0 t) in omega arith)
                (All-both _ _ later asked
                  (reorder_from-sort_order subscription now 0 ids db.entries later u e))) in
          (
            Pairwise-mono _ (λ a. a.sort_order ≡ position a.id ids) _
                (λ a b p q le. position_le ids a b small p q le)
                (sort_entries (select_rows (is_of subscription) later))
                (All-sort_entries _ _ at_place)
                (sort_entries-Ordered (select_rows (is_of subscription) later)),
            ids-reorder_from subscription 0 ids now db.entries later e,
          ))
    ]
