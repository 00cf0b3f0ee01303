-- ===== src/Text/Space.antt =====
-- White space at the ends of a text, and the words of a text.
use olcrtc_panel_lite.Common.{
  ℕ, ◌≡◌, ◌≢◌, refl, false, List, [], ◌∷◌, ◌++◌, arith, All, All-append, if◌then◌else◌, Bool-cases,
  inl, inr,
}
use olcrtc_panel_lite.Text.{
  Text, is_empty, is_space, trim_left, trim_right, trim_space, fields_from, fields, join,
}

-- no space at the right end
abbrev pub TrimmedRight : Text → Type 0
TrimmedRight s = trim_right s ≡ s

pub append-ne-nil : (s t : Text) → t ≢ [] → s ++ t ≢ []
append-ne-nil [] t h = h
append-ne-nil (c ∷ s) t h = cc

pub trim_right-append : (s t : Text) → TrimmedRight t → t ≢ [] → TrimmedRight (s ++ t)
unfolding trim_right
trim_right-append [] t h k = h
trim_right-append (c ∷ s) t h k =
    rw (trim_right-append s t h k) (ground (arith, append-ne-nil s t k))

pub trim_space_lem :
    (c : ℕ) (s : Text) → is_space c ≡ false → TrimmedRight (c ∷ s) → trim_space (c ∷ s) ≡ c ∷ s
unfolding trim_space
trim_space_lem c s h k = rw h k

abbrev pub Solid : Text → Type 0
Solid = All (λ c. is_space c ≡ false)

-- a word: not empty, and no space in it
abbrev pub Word : Text → Type 0
Word w = Solid w × (is_empty w ≡ false)

skip_or_take :
    (cur s : Text)
    → Solid cur
    → All Word (fields_from [] s)
    → All Word (if is_empty cur then fields_from [] s else cur ∷ fields_from [] s)
skip_or_take [] s h k = k
skip_or_take (c ∷ cur) s h k = ((h, refl), k)

fields_from-Word : (cur s : Text) → Solid cur → All Word (fields_from cur s)
unfolding fields_from
fields_from-Word cur [] h = ground arith
fields_from-Word cur (c ∷ s) h = elim (Bool-cases (is_space c)) [
  | inl space ↦ rw (space, All) (skip_or_take cur s h (fields_from-Word [] s tt))
  | inr solid ↦
      rw (solid, All) (fields_from-Word (cur ++ c ∷ []) s (All-append _ cur (c ∷ []) h (solid, tt)))
]

pub fields-Word : (s : Text) → All Word (fields s)
unfolding fields
fields-Word s = fields_from-Word [] s tt

Solid-TrimmedRight : (s : Text) → Solid s → TrimmedRight s
unfolding trim_right
Solid-TrimmedRight [] h = refl
Solid-TrimmedRight (c ∷ s) h = rw (Solid-TrimmedRight s h.1) (rw h.0)

join-ne-nil : (sep w : Text) (ws : List Text) → Word w → join (w ∷ ws) sep ≢ []
unfolding join
join-ne-nil sep [] ws h = cc h.1
join-ne-nil sep (c ∷ w) [] h = cc
join-ne-nil sep (c ∷ w) (v ∷ ws) h = cc

-- Words joined by spaces end with no space.
pub join-TrimmedRight : (sep : Text) (ws : List Text) → All Word ws → TrimmedRight (join ws sep)
unfolding join
join-TrimmedRight sep [] h = unfold trim_right in refl
join-TrimmedRight sep (w ∷ []) h = Solid-TrimmedRight w h.0.0
join-TrimmedRight sep (w ∷ v ∷ ws) h =
    trim_right-append w _
      (trim_right-append sep (join (v ∷ ws) sep) (join-TrimmedRight sep (v ∷ ws) h.1)
        (join-ne-nil sep v ws h.1.0))
      (append-ne-nil sep _ (join-ne-nil sep v ws h.1.0))

trim_left-Solid : (s : Text) → Solid s → trim_left s ≡ s
unfolding trim_left
trim_left-Solid [] h = refl
trim_left-Solid (c ∷ s) h = rw h.0

-- A text with no space in it is its own trim.
pub trim_space-Solid : (s : Text) → Solid s → trim_space s ≡ s
unfolding trim_space
trim_space-Solid s h = rw (trim_left-Solid s h) (Solid-TrimmedRight s h)

-- What ends in a filled text with no space at its right end.
abbrev pub Ends : Text → Type 0
Ends t = TrimmedRight t × (t ≢ [])

pub Ends-append : (s t : Text) → Ends t → Ends (s ++ t)
Ends-append s t h = (trim_right-append s t h.0 h.1, append-ne-nil s t h.1)
