-- ===== src/Instance/Uri/Standard/Params.antt =====
-- The transport parameters that StandardURI writes are those that the validation accepts.
use olcrtc_panel_lite.Common.{
  ◌≡◌, ◌≢◌, refl, true, false, not, ◌&&◌, List, [], ◌∷◌, map, arith, All, ok,
}
use olcrtc_panel_lite.Text.{Text, codes, text_eq, is_empty, trim_space}
use olcrtc_panel_lite.Text.Pieces.{NoneOf, cut-append, contains_any-NoneOf}
use olcrtc_panel_lite.Text.Number.{parse_int}
use olcrtc_panel_lite.Instance.Uri.Standard.Render.{Param, present, assignment}
use olcrtc_panel_lite.Instance.Uri.Standard.Check.{
  trimmed_cut, member, numeric_key, is_number, check_part, check_parts,
}

-- the characters that a value must not hold
abbrev pub separators : Text
separators = codes "<>@#$?&\r\n"

-- a value that can be written
pub record IsClean (v : Text) : Type 0 where
  pub filled : is_empty v ≡ false
  pub trimmed : trim_space v ≡ v
  pub plain : All (NoneOf separators) v

-- a key that can be written, and that the transport allows
pub record IsKey (allowed : List Text) (k : Text) : Type 0 where
  pub filled : is_empty k ≡ false
  pub trimmed : trim_space k ≡ k
  pub plain : All (NoneOf (codes "=<>@#$?&\r\n")) k
  pub allowed_key : member allowed k ≡ true

pub record IsParam (allowed : List Text) (p : Text × Text) : Type 0 where
  pub key : IsKey allowed p.0
  pub value : IsClean p.1
  pub numeric : (numeric_key p.0 && not (is_number (parse_int p.1))) ≡ false

-- no two keys are equal
abbrev pub Distinct : List (Text × Text) → Type 0
Distinct [] = Unit
Distinct ((k, v) ∷ ps) = All (λ (q : Text × Text). text_eq k q.0 ≡ false) ps × Distinct ps

key-Lacks : (k : Text) → All (NoneOf (codes "=<>@#$?&\r\n")) k → All (λ c. c ≢ b'=') k
key-Lacks [] h = tt
key-Lacks (c ∷ k) h = (ground arith, key-Lacks k h.1)

trimmed_cut_lem :
    (allowed : List Text) (k v : Text)
    → IsKey allowed k
    → IsClean v
    → trimmed_cut (assignment (k, v)) ≡ (k, v, true)
unfolding trimmed_cut
trimmed_cut_lem allowed k v hk hv =
    rw (cut-append b'=' k v (key-Lacks k hk.plain), trimmed_cut) (rw (hk.trimmed, hv.trimmed))

check_part_lem :
    (allowed seen : List Text) (k v : Text)
    → IsParam allowed (k, v)
    → member seen k ≡ false
    → check_part allowed seen (assignment (k, v)) ≡ ok k
unfolding check_part
check_part_lem allowed seen k v h fresh = rw (trimmed_cut_lem allowed k v h.key h.value) (
    rw (
      h.key.filled,
      h.value.filled,
      fresh,
      h.key.allowed_key,
      contains_any-NoneOf separators v h.value.plain,
      h.numeric,
    ))

fresh_tail :
    (seen : List Text) (k : Text) (ps : List (Text × Text))
    → All (λ (q : Text × Text). member seen q.0 ≡ false) ps
    → All (λ (q : Text × Text). text_eq k q.0 ≡ false) ps
    → All (λ (q : Text × Text). member (k ∷ seen) q.0 ≡ false) ps
fresh_tail seen k [] h d = tt
fresh_tail seen k (q ∷ ps) h d = (rw d.0 h.0, fresh_tail seen k ps h.1 d.1)

-- The loop over the parts accepts the assignments of distinct good parameters.
pub check_parts_lem :
    (allowed seen : List Text) (ps : List (Text × Text))
    → All (IsParam allowed) ps
    → Distinct ps
    → All (λ (q : Text × Text). member seen q.0 ≡ false) ps
    → check_parts allowed seen (map assignment ps) ≡ ok tt
unfolding check_parts
check_parts_lem allowed seen [] h d f = refl
check_parts_lem allowed seen ((k, v) ∷ ps) h d f =
    rw (check_part_lem allowed seen k v h.0 f.0)
      (check_parts_lem allowed (k ∷ seen) ps h.1 d.1 (fresh_tail seen k ps f.1 d.0))

pub All-present :
    (allowed : List Text) (ps : List Param)
    → All (λ (q : Param). IsParam allowed (q.1, q.2)) ps
    → All (IsParam allowed) (present ps)
unfolding present
All-present allowed [] h = tt
All-present allowed ((true, k, v) ∷ ps) h = (h.0, All-present allowed ps h.1)
All-present allowed ((false, k, v) ∷ ps) h = All-present allowed ps h.1
