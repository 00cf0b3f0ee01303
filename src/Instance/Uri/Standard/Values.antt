-- ===== src/Instance/Uri/Standard/Values.antt =====
-- The parameters of each transport are good and distinct.
use olcrtc_panel_lite.Common.{
  ℕ, ◌<◌, ◌≡◌, refl, Bool, true, false, ◌&&◌, some, List, [], ◌∷◌, arith, All, two_64, Bool-cases,
  inl, inr,
}
use olcrtc_panel_lite.Text.{
  Text, codes, text_eq, is_empty, is_space, contains_any, trim_space, has_prefix,
}
use olcrtc_panel_lite.Text.Equality.{text_eq→eq}
use olcrtc_panel_lite.Text.Pieces.{NoneOf, NoneOf-contains_any}
use olcrtc_panel_lite.Text.Space.{Solid, trim_space-Solid}
use olcrtc_panel_lite.Text.Number.{itoa, IsDigit, itoa-digits, itoa-ne-nil, parse_int-itoa}
use olcrtc_panel_lite.Model.{Instance, TransportOptions}
use olcrtc_panel_lite.Instance.Names.{vp8channel, seichannel, videochannel}
use olcrtc_panel_lite.Instance.Uri.Standard.Render.{
  Param, present, sort_keys, vp8_params, sei_params, video_params, standard_params,
}
use olcrtc_panel_lite.Instance.Uri.Standard.Check.{allowed_keys, numeric_key, member}
use olcrtc_panel_lite.Instance.Uri.Standard.Params.{
  IsClean, IsKey, IsParam, Distinct, separators, All-present,
}
use olcrtc_panel_lite.Instance.Uri.Standard.Payload.{
  DistinctKeys, All-sort_keys, Distinct-sort_keys, Distinct-present,
}

digit-Solid : (c : ℕ) → IsDigit c → is_space c ≡ false
unfolding is_space
digit-Solid c h = ground arith

itoa-Solid : (n : ℕ) → Solid (itoa n)
itoa-Solid n = itoa-digits (λ c. is_space c ≡ false) (unfold is_space in refl) digit-Solid n

not_empty : (s : Text) → (s ≡ [] → ⊥) → is_empty s ≡ false
not_empty [] h = absurd (h refl)
not_empty (c ∷ s) h = refl

itoa-IsClean : (n : ℕ) → IsClean (itoa n)
itoa-IsClean n = record {
  filled = not_empty (itoa n) (itoa-ne-nil n);
  trimmed = trim_space-Solid (itoa n) (itoa-Solid n);
  plain = itoa-digits (NoneOf separators) refl (λ c h. ground arith) n;
}

and_false : (b : Bool) → (b && false) ≡ false
and_false true = refl
and_false false = refl

module _ (allowed : List Text) (k : Text) where
  literal-IsKey :
      is_empty k ≡ false
      → text_eq (trim_space k) k ≡ true
      → contains_any k (codes "=<>@#$?&\r\n") ≡ false
      → member allowed k ≡ true
      → IsKey allowed k
  literal-IsKey h t p m = record {
    filled = h;
    trimmed = text_eq→eq (trim_space k) k t;
    plain = NoneOf-contains_any (codes "=<>@#$?&\r\n") k p;
    allowed_key = m;
  }

  number-IsParam : (n : ℕ) → IsKey allowed k → n < two_64 → IsParam allowed (k, itoa n)
  number-IsParam n h lt = record {
    key = h;
    value = itoa-IsClean n;
    numeric = rw (parse_int-itoa n lt) (and_false (numeric_key k));
  }

  text-IsParam :
      (v : Text) → IsKey allowed k → IsClean v → numeric_key k ≡ false → IsParam allowed (k, v)
  text-IsParam v h c n = record { key = h; value = c; numeric = rw n }

-- every number an int, and the two texts without separators
pub record CanRender (o : TransportOptions) : Type 0 where
  pub vp8_fps : o.vp8_fps < two_64
  pub vp8_batch : o.vp8_batch < two_64
  pub sei_fps : o.sei_fps < two_64
  pub sei_batch : o.sei_batch < two_64
  pub sei_fragment : o.sei_fragment < two_64
  pub sei_ack_ms : o.sei_ack_ms < two_64
  pub video_width : o.video_width < two_64
  pub video_height : o.video_height < two_64
  pub video_fps : o.video_fps < two_64
  pub video_codec : IsClean o.video_codec
  pub video_qr_size : o.video_qr_size < two_64
  pub video_qr_recover : IsClean o.video_qr_recover
  pub video_tile : o.video_tile < two_64
  pub video_tile_rs : o.video_tile_rs < two_64

abbrev pub AllGood : List Text → List Param → Type 0
AllGood allowed ps = All (λ (q : Param). IsParam allowed (q.1, q.2)) ps

abbrev vp8_allowed : List Text
vp8_allowed = codes "vp8-fps" ∷ codes "vp8-batch" ∷ []

vp8_params-AllGood : (o : TransportOptions) → CanRender o → AllGood vp8_allowed (vp8_params o)
unfolding vp8_params text_eq trim_space is_space
vp8_params-AllGood o h = (
  number-IsParam _ _ _ (literal-IsKey _ _ refl refl refl refl) h.vp8_fps,
  (number-IsParam _ _ _ (literal-IsKey _ _ refl refl refl refl) h.vp8_batch, tt),
)

abbrev sei_allowed : List Text
sei_allowed = codes "fps" ∷ codes "batch" ∷ codes "frag" ∷ codes "ack-ms" ∷ []

sei_params-AllGood : (o : TransportOptions) → CanRender o → AllGood sei_allowed (sei_params o)
unfolding sei_params text_eq trim_space is_space
sei_params-AllGood o h = (
  number-IsParam _ _ _ (literal-IsKey _ _ refl refl refl refl) h.sei_fps,
  (
    number-IsParam _ _ _ (literal-IsKey _ _ refl refl refl refl) h.sei_batch,
    (
      number-IsParam _ _ _ (literal-IsKey _ _ refl refl refl refl) h.sei_fragment,
      (number-IsParam _ _ _ (literal-IsKey _ _ refl refl refl refl) h.sei_ack_ms, tt),
    ),
  ),
)

abbrev video_allowed : List Text
video_allowed =
    codes "video-w"
    ∷ codes "video-h"
    ∷ codes "video-fps"
    ∷ codes "video-bitrate"
    ∷ codes "video-hw"
    ∷ codes "video-codec"
    ∷ codes "video-qr-size"
    ∷ codes "video-qr-recovery"
    ∷ codes "video-tile-module"
    ∷ codes "video-tile-rs"
    ∷ []

video_number :
    (k : Text) (n : ℕ) → IsKey video_allowed k → n < two_64 → IsParam video_allowed (k, itoa n)
video_number k n h lt = number-IsParam video_allowed k n h lt

video_params-AllGood : (o : TransportOptions) → CanRender o → AllGood video_allowed (video_params o)
unfolding video_params text_eq trim_space is_space numeric_key has_prefix
video_params-AllGood o h = (
  video_number _ _ (literal-IsKey _ _ refl refl refl refl) h.video_width,
  (
    video_number _ _ (literal-IsKey _ _ refl refl refl refl) h.video_height,
    (
      video_number _ _ (literal-IsKey _ _ refl refl refl refl) h.video_fps,
      (
        text-IsParam _ _ _ (literal-IsKey _ _ refl refl refl refl) h.video_codec refl,
        (
          video_number _ _ (literal-IsKey _ _ refl refl refl refl) h.video_qr_size,
          (
            text-IsParam _ _ _ (literal-IsKey _ _ refl refl refl refl) h.video_qr_recover refl,
            (
              video_number _ _ (literal-IsKey _ _ refl refl refl refl) h.video_tile,
              (video_number _ _ (literal-IsKey _ _ refl refl refl refl) h.video_tile_rs, tt),
            ),
          ),
        ),
      ),
    ),
  ),
)

vp8_params-DistinctKeys : (o : TransportOptions) → DistinctKeys (vp8_params o)
unfolding vp8_params text_eq
vp8_params-DistinctKeys o = ((refl, tt), (tt, tt))

sei_params-DistinctKeys : (o : TransportOptions) → DistinctKeys (sei_params o)
unfolding sei_params text_eq
sei_params-DistinctKeys o =
    ((refl, (refl, (refl, tt))), ((refl, (refl, tt)), ((refl, tt), (tt, tt))))

video_params-DistinctKeys : (o : TransportOptions) → DistinctKeys (video_params o)
unfolding video_params text_eq
video_params-DistinctKeys o = (
  (refl, (refl, (refl, (refl, (refl, (refl, (refl, tt))))))),
  (
    (refl, (refl, (refl, (refl, (refl, (refl, tt)))))),
    (
      (refl, (refl, (refl, (refl, (refl, tt))))),
      (
        (refl, (refl, (refl, (refl, tt)))),
        ((refl, (refl, (refl, tt))), ((refl, (refl, tt)), ((refl, tt), (tt, tt)))),
      ),
    ),
  ),
)

-- parameters that the validation of a transport accepts: none, or good and distinct ones
pub data Accepts (transport : Text) (ps : List (Text × Text)) : Type 0 where
  nothing : ps ≡ [] → Accepts transport ps
  parameters :
      (allowed : List Text)
      → allowed_keys transport ≡ some allowed
      → All (IsParam allowed) ps
      → Distinct ps
      → Accepts transport ps

accept :
    (transport : Text) (allowed : List Text) (ps : List Param)
    → allowed_keys transport ≡ some allowed
    → AllGood allowed ps
    → DistinctKeys ps
    → Accepts transport (sort_keys (present ps))
accept transport allowed ps e g d =
    parameters allowed e (All-sort_keys (IsParam allowed) (present ps) (All-present allowed ps g))
      (Distinct-sort_keys (present ps) (Distinct-present ps d))

-- What StandardURI writes for a transport is what the validation of that transport accepts.
pub standard_params-Accepts :
    (item : Instance)
    → CanRender item.options
    → Accepts item.transport (sort_keys (present (standard_params item)))
unfolding standard_params allowed_keys
standard_params-Accepts item h = elim (Bool-cases (text_eq item.transport vp8channel)) [
  | inl v ↦ rw v (
      accept item.transport vp8_allowed (vp8_params item.options) (rw v)
        (vp8_params-AllGood item.options h) (vp8_params-DistinctKeys item.options))
  | inr v ↦ elim (Bool-cases (text_eq item.transport seichannel)) [
    | inl s ↦
        rw (v, s)
          (accept item.transport sei_allowed (sei_params item.options) (rw (v, s))
            (sei_params-AllGood item.options h) (sei_params-DistinctKeys item.options))
    | inr s ↦ elim (Bool-cases (text_eq item.transport videochannel)) [
      | inl w ↦
          rw (v, s, w)
            (accept item.transport video_allowed (video_params item.options) (rw (v, s, w))
              (video_params-AllGood item.options h) (video_params-DistinctKeys item.options))
      | inr w ↦ rw (v, s, w) (nothing (unfold sort_keys present in refl))
    ]
  ]
]
