-- ===== src/Instance/Uri/Client/Query.antt =====
-- StripAuthToken of a URI by its pieces: the head up to `?`, the query, the fragment.
use olcrtc_panel_lite.Common.{
  ℕ, ◌+◌, ◌≤◌, ◌≡◌, none, some, [], ◌∷◌, ◌++◌, append_assoc, append-nil, arith, length, take-append,
  drop-append_middle, drop-take-append, take_all, drop-append, length-append, All-append, Lacks,
  lt→ltb, le→ltb,
}
use olcrtc_panel_lite.Text.{Text, codes, index_byte, split, join}
use olcrtc_panel_lite.Text.Pieces.{index_byte-append, index_byte-Lacks}
use olcrtc_panel_lite.Instance.Uri.Client.{without_token, strip_query, strip_auth_token}

strip_query_bare :
    (h j : Text) (q : ℕ)
    → length h ≡ q + 1
    → strip_query (h ++ j) q none ≡ h ++ (join (without_token (split j b'&')) (codes "&") ++ [])
unfolding strip_query
strip_query_bare h j q e = rw (← e) (rw (take-append h j, take_all (h ++ j), drop-append h j))

strip_query_fragment :
    (h j f : Text) (q : ℕ)
    → length h ≡ q + 1
    → strip_query (h ++ (j ++ f)) q (some (length h + length j))
      ≡ h ++ (join (without_token (split j b'&')) (codes "&") ++ f)
unfolding strip_query
strip_query_fragment h j f q e = rw (← e) (
    rw (lt→ltb q (length h + length j) (omega arith))
      (rw (take-append h (j ++ f), drop-take-append h j f, drop-append_middle h j f)))

-- nothing, or `#` and the rest
abbrev pub IsFragment : Text → Type 0
IsFragment [] = Unit
IsFragment (c ∷ f) = c ≡ b'#'

abbrev pub head_of : Text → Text → Text
head_of a b = (a ++ b'@' ∷ b) ++ b'?' ∷ []

module _ (a b j f : Text) where
  at_index : Lacks b'@' a → index_byte (head_of a b ++ (j ++ f)) b'@' ≡ some (length a)
  at_index h =
      rw (append_assoc (a ++ b'@' ∷ b), append_assoc a)
        (index_byte-append b'@' a (b ++ b'?' ∷ (j ++ f)) h)

  question_index :
      Lacks b'?' (a ++ b'@' ∷ b)
      → index_byte (head_of a b ++ (j ++ f)) b'?' ≡ some (length (a ++ b'@' ∷ b))
  question_index h =
      rw (append_assoc (a ++ b'@' ∷ b)) (index_byte-append b'?' (a ++ b'@' ∷ b) (j ++ f) h)

hash_index :
    (h j f : Text)
    → Lacks b'#' h
    → Lacks b'#' j
    → index_byte (h ++ (j ++ b'#' ∷ f)) b'#' ≡ some (length h + length j)
hash_index h j f hh hj =
    rw (← append_assoc h j)
      (rw (← length-append h j) (index_byte-append b'#' (h ++ j) f (All-append _ h j hh hj)))

at_le : (a b : Text) → length a ≤ length (a ++ b'@' ∷ b)
at_le a b = omega (arith, length-append a (b'@' ∷ b))

head_length : (a b : Text) → length (head_of a b) ≡ length (a ++ b'@' ∷ b) + 1
head_length a b = omega (arith, length-append (a ++ b'@' ∷ b) (b'?' ∷ []))

strip_fragment :
    (a b j f : Text)
    → Lacks b'#' (head_of a b)
    → Lacks b'#' j
    → IsFragment f
    → strip_query
        (head_of a b ++ (j ++ f))
        (length (a ++ b'@' ∷ b))
        (index_byte (head_of a b ++ (j ++ f)) b'#')
      ≡ head_of a b ++ (join (without_token (split j b'&')) (codes "&") ++ f)
strip_fragment a b j [] hh hj hf = rw (append-nil j) (
    rw (index_byte-Lacks b'#' (head_of a b ++ j) (All-append _ (head_of a b) j hh hj))
      (strip_query_bare (head_of a b) j _ (head_length a b)))
strip_fragment a b j (c ∷ f) hh hj hf = rw hf (
    rw (hash_index (head_of a b) j f hh hj)
      (strip_query_fragment (head_of a b) j (b'#' ∷ f) _ (head_length a b)))

-- A URI by its pieces: what stands before `?` with its `@`, the query, the fragment.
pub strip_lem :
    (a b j f : Text)
    → Lacks b'@' a
    → Lacks b'?' (a ++ b'@' ∷ b)
    → Lacks b'#' ((a ++ b'@' ∷ b) ++ b'?' ∷ [])
    → Lacks b'#' j
    → IsFragment f
    → strip_auth_token (((a ++ b'@' ∷ b) ++ b'?' ∷ []) ++ (j ++ f))
      ≡ ((a ++ b'@' ∷ b) ++ b'?' ∷ []) ++ (join (without_token (split j b'&')) (codes "&") ++ f)
unfolding strip_auth_token
strip_lem a b j f ha hq hh hj hf =
    rw (at_index a b j f ha, question_index a b j f hq, le→ltb _ _ (at_le a b), strip_auth_token)
      (strip_fragment a b j f hh hj hf)
