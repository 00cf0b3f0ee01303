-- ===== src/Instance/Uri/Standard/Token.antt =====
-- The validation of the transport token that StandardURI writes.
use olcrtc_panel_lite.Common.{
  ℕ, ◌+◌, ◌≡◌, ◌≢◌, refl, true, false, some, List, [], ◌∷◌, ◌++◌, map, arith, any, All, All-append,
  All-mono, Lacks, ok, ◌⊎◌, inl, inr,
}
use olcrtc_panel_lite.Text.{Text, codes, is_empty, is_space, count, contains_any, split, join}
use olcrtc_panel_lite.Text.Equality.{text_eq-cases}
use olcrtc_panel_lite.Text.Pieces.{NoneOf, split-join, All-join}
use olcrtc_panel_lite.Text.Space.{Solid}
use olcrtc_panel_lite.Instance.Names.{datachannel, vp8channel, seichannel, videochannel, transports}
use olcrtc_panel_lite.Instance.Uri.Standard.Render.{assignment}
use olcrtc_panel_lite.Instance.Uri.Standard.Check.{member, ends_with, allowed_keys, check_payload}
use olcrtc_panel_lite.Instance.Uri.Standard.Params.{IsParam, Distinct, separators, check_parts_lem}

pub ends_with-append : (s : Text) (c : ℕ) → ends_with (s ++ c ∷ []) c ≡ true
unfolding ends_with
ends_with-append [] c = ground arith
ends_with-append (d ∷ []) c = ground arith
ends_with-append (d ∷ e ∷ s) c = ends_with-append (e ∷ s) c

pub count-append : (s t : Text) (c : ℕ) → count (s ++ t) c ≡ count s c + count t c
unfolding count
count-append [] t c = omega arith
count-append (d ∷ s) t c = ground (arith, count-append s t c)

pub count-Lacks : (s : Text) (c : ℕ) → Lacks c s → count s c ≡ 0
unfolding count
count-Lacks [] c h = refl
count-Lacks (d ∷ s) c h = ground (arith, count-Lacks s c h.1)

-- the name of a transport holds no separator and no space
pub record IsName (t : Text) : Type 0 where
  pub filled : is_empty t ≡ false
  pub solid : Solid t
  pub plain : contains_any t (codes "<>@#$?&=\r\n") ≡ false

transports-cases :
    (t : Text)
    → transports t ≡ true
    → (t ≡ datachannel) ⊎ ((t ≡ vp8channel) ⊎ ((t ≡ seichannel) ⊎ (t ≡ videochannel)))
unfolding transports
transports-cases t h = elim (text_eq-cases t datachannel) [
  | inl e ↦ inl e
  | inr a ↦ elim (text_eq-cases t vp8channel) [
    | inl e ↦ inr (inl e)
    | inr b ↦ elim (text_eq-cases t seichannel) [
      | inl e ↦ inr (inr (inl e))
      | inr c ↦ elim (text_eq-cases t videochannel) [
        | inl e ↦ inr (inr (inr e))
        | inr d ↦ ground arith
      ]
    ]
  ]
]

any-Solid : (t : Text) → any is_space t ≡ false → Solid t
any-Solid [] h = tt
any-Solid (c ∷ t) h = (ground arith, any-Solid t (ground arith))

pub literal-IsName :
    (t : Text)
    → is_empty t ≡ false
    → contains_any t (codes "<>@#$?&=\r\n") ≡ false
    → any is_space t ≡ false
    → IsName t
literal-IsName t f p s = record { filled = f; solid = any-Solid t s; plain = p }

four :
    (P : Text → Type 0)
    → P datachannel
    → P vp8channel
    → P seichannel
    → P videochannel
    → (t : Text) → transports t ≡ true
    → P t
four P a b c d t h = elim (transports-cases t h) [
  | inl e ↦ rw e a
  | inr more ↦ elim more [
    | inl e ↦ rw e b
    | inr rest ↦ elim rest [ inl e ↦ rw e c | inr e ↦ rw e d ]
  ]
]

pub transports-IsName : (t : Text) → transports t ≡ true → IsName t
unfolding is_space
transports-IsName =
    four IsName (literal-IsName _ refl refl refl) (literal-IsName _ refl refl refl)
      (literal-IsName _ refl refl refl) (literal-IsName _ refl refl refl)

assignment-plain :
    (allowed : List Text) (p : Text × Text)
    → IsParam allowed p
    → All (NoneOf separators) (assignment p)
assignment-plain allowed (k, v) h =
    All-append (NoneOf separators) k (b'=' ∷ v) (All-mono k (λ c x. ground arith) h.key.plain)
      (refl, h.value.plain)

pub assignments-plain :
    (allowed : List Text) (ps : List (Text × Text))
    → All (IsParam allowed) ps
    → All (All (NoneOf separators)) (map assignment ps)
assignments-plain allowed [] h = tt
assignments-plain allowed (p ∷ ps) h =
    (assignment-plain allowed p h.0, assignments-plain allowed ps h.1)

-- neither bracket
abbrev pub Inside : ℕ → Type 0
Inside c = (c ≢ b'<') × (c ≢ b'>')

-- the text between the brackets
abbrev pub inner : List (Text × Text) → Text
inner ps = join (map assignment ps) (codes "&")

pub inner-Inside :
    (allowed : List Text) (ps : List (Text × Text))
    → All (IsParam allowed) ps
    → All Inside (inner ps)
inner-Inside allowed ps h = All-join Inside (codes "&") (map assignment ps) (omega arith) (
    All-mono (map assignment ps) (λ t k. All-mono t (λ c n. (ground arith, ground arith)) k)
      (assignments-plain allowed ps h))

split-inner :
    (allowed : List Text) (p : Text × Text) (ps : List (Text × Text))
    → All (IsParam allowed) (p ∷ ps)
    → split (inner (p ∷ ps)) b'&' ≡ map assignment (p ∷ ps)
split-inner allowed p ps h = split-join b'&' (assignment p) (map assignment ps) (
    All-mono (map assignment (p ∷ ps)) (λ t k. All-mono t (λ c n. ground arith) k)
      (assignments-plain allowed (p ∷ ps) h))

pub inner-filled :
    (allowed : List Text) (p : Text × Text) (ps : List (Text × Text))
    → is_empty (inner (p ∷ ps)) ≡ false
unfolding join
inner-filled allowed ([], v) [] = refl
inner-filled allowed ((c ∷ k), v) [] = refl
inner-filled allowed ([], v) (q ∷ ps) = refl
inner-filled allowed ((c ∷ k), v) (q ∷ ps) = refl

none_seen : (ps : List (Text × Text)) → All (λ (q : Text × Text). member [] q.0 ≡ false) ps
none_seen [] = tt
none_seen (p ∷ ps) = (refl, none_seen ps)

pub check_payload_lem :
    (t : Text) (allowed : List Text) (p : Text × Text) (ps : List (Text × Text))
    → IsName t
    → allowed_keys t ≡ some allowed
    → All (IsParam allowed) (p ∷ ps)
    → Distinct (p ∷ ps)
    → check_payload t (inner (p ∷ ps)) ≡ ok t
unfolding check_payload
check_payload_lem t allowed p ps n e h d =
    rw (n.filled, n.plain, inner-filled allowed p ps)
      (rw (e, split-inner allowed p ps h, check_payload)
        (rw (check_parts_lem allowed [] (p ∷ ps) h d (none_seen (p ∷ ps)))))
