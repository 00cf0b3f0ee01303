-- ===== src/Instance/Uri/Client/Strip.antt =====
-- StripAuthToken of a URI that ClientURI rendered.
use olcrtc_panel_lite.Common.{
  ℕ, ◌≡◌, ◌≢◌, refl, sym, ap, ◌∙◌, true, [], ◌∷◌, ◌++◌, append_assoc, arith, ok, >>=-eq-ok,
  ok-injective, All, All-append, All-mono, Lacks,
}
use olcrtc_panel_lite.Text.{Text, codes, split, join}
use olcrtc_panel_lite.Text.Pieces.{split-join, All-join}
use olcrtc_panel_lite.Model.{Instance}
use olcrtc_panel_lite.Instance.Uri.Client.{
  client_escape, client_parts, client_uri, client_uri_checks, name_fragment, strip_auth_token,
  client_compatible,
}
use olcrtc_panel_lite.Instance.Uri.Client.Characters.{
  client_escape-Plain, client_parts-Inner, compatible-Plain,
}
use olcrtc_panel_lite.Instance.Uri.Client.Query.{IsFragment, head_of, strip_lem}
use olcrtc_panel_lite.Instance.Uri.Client.Parts.{omitting, without_token-client_parts}

-- the text of a rendered URI, grouped for the removal
abbrev rendered : Instance → Text → Text → Text
rendered item key name =
    codes "olcrtc://"
    ++ (item.provider
        ++ (codes "@r/"
            ++ (client_escape item.room_id
                ++ (b'?' ∷ (join (client_parts item key) (codes "&") ++ name_fragment name)))))

abbrev before : Instance → Text
before item = codes "olcrtc://" ++ item.provider

abbrev behind : Instance → Text
behind item = codes "r/" ++ client_escape item.room_id

rendered_grouped :
    (item : Instance) (key name : Text)
    → rendered item key name
      ≡ head_of (before item) (behind item)
        ++ (join (client_parts item key) (codes "&") ++ name_fragment name)
rendered_grouped item key name = simp append_assoc

name_fragment-IsFragment : (name : Text) → IsFragment (name_fragment name)
unfolding name_fragment
name_fragment-IsFragment [] = tt
name_fragment-IsFragment (c ∷ name) = refl

before-All :
    (P : ℕ → Type 0) (item : Instance)
    → All P (codes "olcrtc://")
    → All P item.provider
    → All P (before item)
before-All P item h k = All-append P (codes "olcrtc://") item.provider h k

head-All :
    (P : ℕ → Type 0) (item : Instance)
    → All P (codes "olcrtc://")
    → All P item.provider
    → All P (codes "@r/")
    → All P (client_escape item.room_id)
    → All P (before item ++ b'@' ∷ behind item)
head-All P item h hp ha hr =
    All-append P (before item) _ (before-All P item h hp)
      (All-append P (codes "@r/") (client_escape item.room_id) ha hr)

client_query_lem :
    (item : Instance) (key : Text) → Lacks b'#' (join (client_parts item key) (codes "&"))
client_query_lem item key =
    All-join (λ c. c ≢ b'#') (codes "&") (client_parts item key) (omega arith)
      (All-mono _ (λ p h. All-mono p (λ c i. i.1) h) (client_parts-Inner item key))

client_parts-Lacks : (item : Instance) (key : Text) → All (Lacks b'&') (client_parts item key)
client_parts-Lacks item key =
    All-mono _ (λ p h. All-mono p (λ c i. i.0) h) (client_parts-Inner item key)

split-client_parts :
    (item : Instance) (key : Text)
    → split (join (client_parts item key) (codes "&")) b'&' ≡ client_parts item key
unfolding client_parts
split-client_parts item key = split-join b'&' _ _ (client_parts-Lacks item key)

strip-rendered :
    (item : Instance) (key name : Text)
    → client_compatible item.provider item.transport ≡ true
    → strip_auth_token (rendered item key name) ≡ rendered (omitting item) key name
strip-rendered item key name h =
    let provider = compatible-Plain item.provider item.transport h in
    let room = client_escape-Plain item.room_id in
    let query = client_query_lem item key in
    rw (rendered_grouped item key name) (
      strip_lem (before item) (behind item) _ (name_fragment name)
        (before-All _ item (omega arith) (All-mono item.provider (λ c p. p.3) provider))
        (head-All _ item (omega arith) (All-mono item.provider (λ c p. p.0) provider) (omega arith)
          (All-mono _ (λ c p. p.0) room))
        (All-append _ (before item ++ b'@' ∷ behind item) (b'?' ∷ [])
          (head-All _ item (omega arith) (All-mono item.provider (λ c p. p.2) provider)
            (omega arith) (All-mono _ (λ c p. p.2) room))
          (omega arith))
        query (name_fragment-IsFragment name)
      ∙ rw (split-client_parts item key) (
          rw (without_token-client_parts item key)
            (sym (rendered_grouped (omitting item) key name))))

checks-compatible :
    (item : Instance) (key : Text)
    → client_uri_checks item key ≡ ok tt
    → client_compatible item.provider item.transport ≡ true
unfolding client_uri_checks
checks-compatible item key h = ground arith

checks-omitting :
    (item : Instance) (key : Text)
    → client_uri_checks item key ≡ ok tt
    → client_uri_checks (omitting item) key ≡ ok tt
unfolding client_uri_checks
checks-omitting item key h = ground arith

-- Where ClientURI renders an instance, StripAuthToken of the URI is what ClientURI renders for the
-- same instance with its token omitted: the token goes, and nothing else changes.
pub strip_auth_token-client_uri :
    (item : Instance) (key name uri : Text)
    → client_uri item key name ≡ ok uri
    → client_uri (omitting item) key name ≡ ok (strip_auth_token uri)
unfolding client_uri
strip_auth_token-client_uri item key name uri h =
    let (u, passed, same) = >>=-eq-ok (client_uri_checks item key) _ h in
    rw (checks-omitting item key passed) (
      ap ok (sym (strip-rendered item key name (checks-compatible item key passed)))
      ∙ ap (λ r. ok (strip_auth_token r)) (ok-injective same))
