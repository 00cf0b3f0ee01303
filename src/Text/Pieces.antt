-- ===== src/Text/Pieces.antt =====
-- Laws of the index, cut, split and join of texts.
use olcrtc_panel_lite.Common.{
  ℕ, suc, ◌≡◌, ◌≢◌, refl, ap, Bool, true, false, Option, none, some, List, [], ◌∷◌, ◌++◌, arith,
  ◌==◌, length, All, Lacks, any,
}
use olcrtc_panel_lite.Text.{
  Text, index_byte, cut, split, join, contains_rune, contains_any, has_prefix,
}

pub index_byte-append :
    (c : ℕ) (s t : Text) → Lacks c s → index_byte (s ++ c ∷ t) c ≡ some (length s)
unfolding index_byte
index_byte-append c [] t h = ground arith
index_byte-append c (d ∷ s) t h = ground (arith, index_byte-append c s t h.1)

pub index_byte-Lacks : (c : ℕ) (s : Text) → Lacks c s → index_byte s c ≡ none
unfolding index_byte
index_byte-Lacks c [] h = refl
index_byte-Lacks c (d ∷ s) h = ground (arith, index_byte-Lacks c s h.1)

pub cut-append : (c : ℕ) (s t : Text) → Lacks c s → cut (s ++ c ∷ t) c ≡ some (s, t)
unfolding cut
cut-append c [] t h = ground arith
cut-append c (d ∷ s) t h = ground (arith, cut-append c s t h.1)

pub split-Lacks : (c : ℕ) (s : Text) → Lacks c s → split s c ≡ s ∷ []
unfolding split
split-Lacks c [] h = refl
split-Lacks c (d ∷ s) h = ground (arith, split-Lacks c s h.1)

pub split-append : (c : ℕ) (s t : Text) → Lacks c s → split (s ++ c ∷ t) c ≡ s ∷ split t c
unfolding split
split-append c [] t h = ground arith
split-append c (d ∷ s) t h = ground (arith, split-append c s t h.1)

-- Splitting a join gives the parts back, if there is one and none holds the separator.
pub split-join :
    (c : ℕ) (p : Text) (ps : List Text)
    → All (Lacks c) (p ∷ ps)
    → split (join (p ∷ ps) (c ∷ [])) c ≡ p ∷ ps
unfolding join
split-join c p [] h = split-Lacks c p h.0
split-join c p (q ∷ ps) h =
    rw (split-append c p (join (q ∷ ps) (c ∷ [])) h.0) (ap (λ l. p ∷ l) (split-join c q ps h.1))

-- the characters of a join are those of its parts and of the separator
pub All-join {κ} :
    (P : ℕ → Type κ) (sep : Text) (ps : List Text)
    → All P sep
    → All (All P) ps
    → All P (join ps sep)
unfolding join
All-join P sep [] hs h = tt
All-join P sep (p ∷ []) hs h = h.0
All-join P sep (p ∷ q ∷ ps) hs h =
    olcrtc_panel_lite.Common.All-append P p _ h.0
      (olcrtc_panel_lite.Common.All-append P sep _ hs (All-join P sep (q ∷ ps) hs h.1))

-- `c` is none of `chars`
abbrev pub NoneOf : Text → ℕ → Type 0
NoneOf chars c = contains_rune chars c ≡ false

pub contains_any-NoneOf : (chars s : Text) → All (NoneOf chars) s → contains_any s chars ≡ false
contains_any-NoneOf chars [] h = refl
contains_any-NoneOf chars (c ∷ s) h = ground (arith, contains_any-NoneOf chars s h.1)

pub NoneOf-contains_any : (chars s : Text) → contains_any s chars ≡ false → All (NoneOf chars) s
NoneOf-contains_any chars [] h = tt
NoneOf-contains_any chars (c ∷ s) h = (ground arith, NoneOf-contains_any chars s (ground arith))

pub has_prefix-append : (p s : Text) → has_prefix (p ++ s) p ≡ true
unfolding has_prefix
has_prefix-append [] s = refl
has_prefix-append (c ∷ p) s = ground (arith, has_prefix-append p s)
