-- ===== src/Instance/Uri/Standard/Payload.antt =====
-- Sorting the parameters and leaving the defaults out keeps them distinct.
use olcrtc_panel_lite.Common.{
  ◌≡◌, refl, true, false, List, [], ◌∷◌, arith, All, Bool-cases, inl, inr,
}
use olcrtc_panel_lite.Text.{Text, text_eq}
use olcrtc_panel_lite.Instance.Uri.Standard.Render.{Param, present, text_lt, insert_key, sort_keys}
use olcrtc_panel_lite.Instance.Uri.Standard.Params.{Distinct}

module _ (P : Text × Text → Type 0) where
  All-insert_key :
      (p : Text × Text) (ps : List (Text × Text)) → P p → All P ps → All P (insert_key p ps)
  unfolding insert_key
  All-insert_key p [] hp h = (hp, tt)
  All-insert_key (k, v) ((j, w) ∷ ps) hp h = elim (Bool-cases (text_lt k j)) [
    | inl e ↦ rw (e, All) (hp, h)
    | inr e ↦ rw (e, All) (h.0, All-insert_key (k, v) ps hp h.1)
  ]

  pub All-sort_keys : (ps : List (Text × Text)) → All P ps → All P (sort_keys ps)
  unfolding sort_keys
  All-sort_keys [] h = tt
  All-sort_keys (p ∷ ps) h = All-insert_key p (sort_keys ps) h.0 (All-sort_keys ps h.1)

text_eq_sym : (s t : Text) → text_eq s t ≡ text_eq t s
unfolding text_eq
text_eq_sym [] [] = refl
text_eq_sym [] (d ∷ t) = refl
text_eq_sym (c ∷ s) [] = refl
text_eq_sym (c ∷ s) (d ∷ t) = ground (arith, text_eq_sym s t)

Distinct-insert_key :
    (k v : Text) (ps : List (Text × Text))
    → All (λ (q : Text × Text). text_eq k q.0 ≡ false) ps
    → Distinct ps
    → Distinct (insert_key (k, v) ps)
unfolding insert_key
Distinct-insert_key k v [] h d = (tt, tt)
Distinct-insert_key k v ((j, w) ∷ ps) h d = elim (Bool-cases (text_lt k j)) [
  | inl e ↦ rw (e, Distinct) (h, d)
  | inr e ↦
      rw (e, Distinct)
        (
          All-insert_key (λ (q : Text × Text). text_eq j q.0 ≡ false) (k, v) ps
              (rw (text_eq_sym j k) h.0) d.0,
          Distinct-insert_key k v ps h.1 d.1,
        )
]

pub Distinct-sort_keys : (ps : List (Text × Text)) → Distinct ps → Distinct (sort_keys ps)
unfolding sort_keys
Distinct-sort_keys [] d = tt
Distinct-sort_keys ((k, v) ∷ ps) d =
    Distinct-insert_key k v (sort_keys ps)
      (All-sort_keys (λ (q : Text × Text). text_eq k q.0 ≡ false) ps d.0)
      (Distinct-sort_keys ps d.1)

-- no two keys of a list of parameters are equal, present or not
abbrev pub DistinctKeys : List Param → Type 0
DistinctKeys [] = Unit
DistinctKeys ((b, k, v) ∷ ps) = All (λ (q : Param). text_eq k q.1 ≡ false) ps × DistinctKeys ps

All-present_key :
    (k : Text) (ps : List Param)
    → All (λ (q : Param). text_eq k q.1 ≡ false) ps
    → All (λ (q : Text × Text). text_eq k q.0 ≡ false) (present ps)
unfolding present
All-present_key k [] h = tt
All-present_key k ((true, j, v) ∷ ps) h = (h.0, All-present_key k ps h.1)
All-present_key k ((false, j, v) ∷ ps) h = All-present_key k ps h.1

pub Distinct-present : (ps : List Param) → DistinctKeys ps → Distinct (present ps)
unfolding present
Distinct-present [] d = tt
Distinct-present ((true, k, v) ∷ ps) d = (All-present_key k ps d.0, Distinct-present ps d.1)
Distinct-present ((false, k, v) ∷ ps) d = Distinct-present ps d.1
