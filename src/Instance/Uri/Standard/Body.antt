-- ===== src/Instance/Uri/Standard/Body.antt =====
-- The pieces of the text behind `olcrtc://`, as ValidateStandardURI finds them.
use olcrtc_panel_lite.Common.{
  ℕ, suc, ◌-◌, ◌<◌, ◌≡◌, true, false, [], ◌∷◌, ◌++◌, append_assoc, arith, take, drop, length,
  length-append, take-append, drop-append_suc, drop-append_add_one, All, All-append, All-mono,
  Lacks, ok, lt→ltb,
}
use olcrtc_panel_lite.Text.{Text, codes, is_empty, contains_any, trim_space, trim_right}
use olcrtc_panel_lite.Text.Pieces.{
  NoneOf, NoneOf-contains_any, index_byte-append, contains_any-NoneOf,
}
use olcrtc_panel_lite.Text.Space.{trim_space-Solid}
use olcrtc_panel_lite.Model.{Instance}
use olcrtc_panel_lite.Instance.Names.{providers, transports}
use olcrtc_panel_lite.Instance.Uri.Standard.Check.{
  olcbox, index1, format_of_body, key_and_comment, check_rest, check_body,
  validate_standard_transport,
}
use olcrtc_panel_lite.Instance.Uri.Standard.Token.{IsName}
use olcrtc_panel_lite.Instance.Uri.Standard.Fields.{
  reserved, AreFields, IsHex, key-IsHex, Middle, name-Middle,
}

pub index1-append : (c : ℕ) (s t : Text) → Lacks c s → index1 (s ++ c ∷ t) c ≡ suc (length s)
unfolding index1
index1-append c s t h = rw (index_byte-append c s t h, index1)

-- the text behind the room
abbrev pub rest_of : Text → Text → Text → Text
rest_of room key comment = room ++ b'#' ∷ (key ++ b'$' ∷ comment)

pub key-Lacks : (key : Text) → All IsHex key → Lacks b'$' key
key-Lacks key h = All-mono key (λ c k. ground arith) h

pub length-filled : (s : Text) → is_empty (trim_space s) ≡ false → 0 < length s
unfolding trim_space trim_right
length-filled [] h = cc
length-filled (c ∷ s) h = omega arith

pub key_and_comment_lem :
    (key comment : Text) → All IsHex key → key_and_comment (key ++ b'$' ∷ comment) ≡ (key, comment)
unfolding key_and_comment
key_and_comment_lem key comment h =
    rw (index_byte-append b'$' key comment (key-Lacks key h), key_and_comment)
      (rw (take-append key (b'$' ∷ comment), drop-append_add_one key b'$' comment))

pub suc-sub_one : (n : ℕ) → suc n - 1 ≡ n
suc-sub_one n = omega arith

pub room-Lacks : (room : Text) → All (NoneOf reserved) room → Lacks b'#' room
room-Lacks room h = All-mono room (λ c k. ground arith) h

pub comment_plain :
    (comment : Text)
    → All (NoneOf reserved) comment
    → contains_any comment (codes "<>@#$\r\n") ≡ false
comment_plain comment h =
    contains_any-NoneOf (codes "<>@#$\r\n") comment (All-mono comment (λ c k. ground arith) h)

pub check_rest_lem :
    (item : Instance) (key comment : Text)
    → AreFields item key comment
    → is_empty (trim_space item.room_id) ≡ false
    → check_rest (rest_of item.room_id key comment) ≡ ok tt
unfolding check_rest
check_rest_lem item key comment f filled =
    rw (index1-append b'#' item.room_id (key ++ b'$' ∷ comment) (room-Lacks item.room_id f.room)) (
      rw
        (
          lt→ltb 1 (suc (length item.room_id)) (omega (arith, length-filled item.room_id filled)),
          suc-sub_one (length item.room_id),
        )
        (rw
          (
            take-append item.room_id (b'#' ∷ (key ++ b'$' ∷ comment)),
            drop-append_suc item.room_id b'#' (key ++ b'$' ∷ comment),
          )
          (rw (key_and_comment_lem key comment (key-IsHex key f.key)) (
            rw (f.key, filled)
              (rw (
                contains_any-NoneOf reserved item.room_id f.room,
                comment_plain comment f.comment,
              ))))))

-- the text before the first `@`
abbrev pub front_of : Text → Text → Text
front_of provider token = provider ++ b'?' ∷ token

pub name-Lacks : (t : Text) → IsName t → Lacks b'?' t
name-Lacks t n =
    All-mono t (λ c k. ground arith) (NoneOf-contains_any (codes "<>@#$?&=\r\n") t n.plain)

pub name-length : (t : Text) → IsName t → 0 < length t
name-length [] n = cc n.filled
name-length (c ∷ t) n = omega arith

pub front-Middle :
    (provider token : Text)
    → All Middle provider
    → All Middle token
    → All Middle (front_of provider token)
front-Middle provider token h k =
    All-append Middle provider (b'?' ∷ token) h ((omega arith, omega arith, omega arith), k)

-- the two marks of the body
module _ (provider token rest : Text) (n : IsName provider) (m : All Middle token) where
  pub question_lem : index1 (front_of provider token ++ b'@' ∷ rest) b'?' ≡ suc (length provider)
  question_lem =
      rw (append_assoc provider)
        (index1-append b'?' provider (token ++ b'@' ∷ rest) (name-Lacks provider n))

  pub at_lem :
      index1 (front_of provider token ++ b'@' ∷ rest) b'@' ≡ suc (length (front_of provider token))
  at_lem = index1-append b'@' (front_of provider token) rest (
      All-mono (front_of provider token) (λ c k. k.0)
        (front-Middle provider token (name-Middle provider n) m))

  pub question_lt_at : suc (length provider) < suc (length (front_of provider token))
  question_lt_at = omega (arith, length-append provider (b'?' ∷ token))

  pub format_lem : format_of_body (front_of provider token ++ b'@' ∷ rest) ≡ olcbox
  unfolding format_of_body
  format_lem =
      rw (question_lem, at_lem)
        (rw (
          lt→ltb 1 (suc (length provider)) (omega (arith, name-length provider n)),
          lt→ltb _ _ question_lt_at,
        ))

  take_provider :
      take (suc (length provider) - 1) (front_of provider token ++ b'@' ∷ rest) ≡ provider
  take_provider =
      rw (suc-sub_one (length provider), append_assoc provider)
        (take-append provider (b'?' ∷ (token ++ b'@' ∷ rest)))

  take_token :
      drop
        (suc (length provider))
        (take (suc (length (front_of provider token)) - 1) (front_of provider token ++ b'@' ∷ rest))
      ≡ token
  take_token = rw (suc-sub_one (length (front_of provider token))) (
      rw (take-append (front_of provider token) (b'@' ∷ rest))
        (drop-append_suc provider b'?' token))

  -- the checks of the body, piece by piece
  pub check_body_lem :
      (transport : Text)
      → providers provider ≡ true
      → trim_space token ≡ token
      → validate_standard_transport token ≡ ok transport
      → transports transport ≡ true
      → check_rest rest ≡ ok tt
      → check_body (front_of provider token ++ b'@' ∷ rest) ≡ ok tt
  unfolding check_body
  check_body_lem transport p trimmed t known r =
      rw (question_lem, at_lem)
        (rw
          (
            lt→ltb 1 (suc (length provider)) (omega (arith, name-length provider n)),
            lt→ltb _ _ question_lt_at,
            take_provider,
            take_token,
            drop-append_suc (front_of provider token) b'@' rest,
          )
          (rw (trim_space-Solid provider n.solid, trimmed) (rw (p, t) (rw (known, r)))))
