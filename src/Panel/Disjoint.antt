-- ===== src/Panel/Disjoint.antt =====
-- internal/config/config.go: the paths of two mounts that do not overlap.
use olcrtc_panel_lite.Common.{
  ◌≡◌, ◌≢◌, refl, ap, ◌∙◌, Bool, true, false, ◌||◌, [], ◌∷◌, ◌++◌, Check, ok, err, wrap_err, reject,
  inl, inr, arith, Bool-cases, if_true, if_false, >>-eq-ok, reject-ok, outside,
}
use olcrtc_panel_lite.Text.{Text, codes, text_eq, is_empty, has_prefix, trim_suffix_rune}
use olcrtc_panel_lite.Text.Equality.{text_eq-cases}
use olcrtc_panel_lite.Instance.Net.{NetLib}
use olcrtc_panel_lite.Panel.Paths.{
  ends_with_slash, without_slash, validate_mount_path, validate_public_origin, paths_overlap,
  join_url_path,
}
use olcrtc_panel_lite.Panel.Settings.{
  Config, mounts_clash, validate_config, lacks_required, setting_empty, bad_public_port,
  bad_max_instances, mounts_overlap, bad_origin, bad_panel_path, bad_subscription_path,
}

-- two prefixes of one text that end in a slash
prefixes :
    (path a b : Text)
    → has_prefix path (a ++ codes "/") ≡ true
    → has_prefix path (b ++ codes "/") ≡ true
    → paths_overlap a b ≡ true
unfolding has_prefix paths_overlap text_eq
prefixes [] [] b h k = cc
prefixes [] (c ∷ a) b h k = cc
prefixes (x ∷ p) [] [] h k = refl
prefixes (x ∷ p) [] (d ∷ b) h k = ground arith
prefixes (x ∷ p) (c ∷ a) [] h k = ground arith
prefixes (x ∷ p) (c ∷ a) (d ∷ b) h k = ground (arith, prefixes p a b)

has_prefix-slash : (a s : Text) → has_prefix (a ++ (b'/' ∷ s)) (a ++ codes "/") ≡ true
unfolding has_prefix
has_prefix-slash [] s = refl
has_prefix-slash (c ∷ a) s = let h = has_prefix-slash a s in ground arith

trim_suffix-no_slash : (a : Text) → ends_with_slash a ≡ false → trim_suffix_rune a b'/' ≡ a
unfolding ends_with_slash trim_suffix_rune
trim_suffix-no_slash [] h = refl
trim_suffix-no_slash (c ∷ []) h = if_false _ _ _ h
trim_suffix-no_slash (c ∷ d ∷ s) h = ap (λ t. c ∷ t) (trim_suffix-no_slash (d ∷ s) h)

-- a mount that ValidateMountPath accepts, the root apart, does not end in a slash
mount-no_slash :
    (a : Text) (allow_root : Bool)
    → text_eq a (codes "/") ≡ false
    → validate_mount_path a allow_root ≡ ok tt
    → ends_with_slash a ≡ false
unfolding validate_mount_path
mount-no_slash a allow_root e h = elim (Bool-cases (ends_with_slash a)) [
  | inr s ↦ s
  | inl s ↦ absurd (ground arith)
]

wrap_err-ok : {E F : Type 0} (f : E → F) (r : Check E) → wrap_err f r ≡ ok (tt {0}) → r ≡ ok tt
wrap_err-ok f (ok u) h = refl
wrap_err-ok f (err e) h = cc

join_url_path-under :
    (a route : Text)
    → text_eq a (codes "/") ≡ false
    → ends_with_slash a ≡ false
    → has_prefix (join_url_path a route) (a ++ codes "/") ≡ true
unfolding join_url_path
join_url_path-under a route e s = elim (Bool-cases (text_eq route (codes "/") || is_empty route)) [
  | inl r ↦
      ap (λ p. has_prefix p (a ++ codes "/")) (if_false _ _ _ e ∙ if_true _ _ _ r)
      ∙ has_prefix-slash a []
  | inr r ↦
      ap (λ p. has_prefix p (a ++ codes "/"))
        (if_false _ _ _ e
          ∙ (if_false _ _ _ r
              ∙ ap (λ t. t ++ (b'/' ∷ without_slash route)) (trim_suffix-no_slash a s)))
      ∙ has_prefix-slash a (without_slash route)
]

-- the checks of the mounts in Validate
mounts_checked :
    (net : NetLib) (is_cidr : Text → Bool) (c : Config)
    → validate_config net is_cidr c ≡ ok tt
    → (validate_mount_path c.panel_path true ≡ ok tt)
      × (validate_mount_path c.subscription_path false ≡ ok tt)
      × (mounts_clash c ≡ false)
unfolding validate_config
mounts_checked net is_cidr c h =
    let p1 = >>-eq-ok (reject (lacks_required c) setting_empty) _ h in
    let p2 = >>-eq-ok (reject (outside 1 65535 c.public_port) bad_public_port) _ p1.1 in
    let p3 = >>-eq-ok (reject (outside 1 1000 c.max_instances) bad_max_instances) _ p2.1 in
    let p4 = >>-eq-ok (wrap_err bad_origin (validate_public_origin net c.public_origin)) _ p3.1 in
    let p5 = >>-eq-ok (wrap_err bad_panel_path (validate_mount_path c.panel_path true)) _ p4.1 in
    let p6 =
      >>-eq-ok (wrap_err bad_subscription_path (validate_mount_path c.subscription_path false)) _
        p5.1 in
    let p7 = >>-eq-ok (reject (mounts_clash c) mounts_overlap) _ p6.1 in
    (wrap_err-ok _ _ p5.0, wrap_err-ok _ _ p6.0, reject-ok _ mounts_overlap p7.0)

not_root :
    (value : Text) → validate_mount_path value false ≡ ok tt → text_eq value (codes "/") ≡ false
unfolding validate_mount_path
not_root value h = elim (Bool-cases (text_eq value (codes "/"))) [
  | inr e ↦ e
  | inl e ↦ absurd (ground arith)
]

apart :
    (c : Config)
    → text_eq c.panel_path (codes "/") ≡ false
    → mounts_clash c ≡ false
    → paths_overlap c.panel_path c.subscription_path ≡ false
unfolding mounts_clash
apart c e h = ground arith

-- In a configuration that passes Validate and whose panel is not at the root, the paths that JoinURLPath
-- makes under the mount of the panel are none of those that it makes under the mount of the
-- subscriptions.
pub join_url_path-apart :
    (net : NetLib) (is_cidr : Text → Bool) (c : Config) (page feed : Text)
    → validate_config net is_cidr c ≡ ok tt
    → c.panel_path ≢ codes "/"
    → join_url_path c.panel_path page ≢ join_url_path c.subscription_path feed
join_url_path-apart net is_cidr c page feed h ne same =
    let checks = mounts_checked net is_cidr c h in
    elim (text_eq-cases c.panel_path (codes "/")) [
      | inl e ↦ ne e
      | inr e ↦
          let feed_root = not_root c.subscription_path checks.1 in
          let panel =
            join_url_path-under c.panel_path page e (mount-no_slash c.panel_path true e checks.0) in
          let feeds =
            join_url_path-under c.subscription_path feed feed_root
              (mount-no_slash c.subscription_path false feed_root checks.1) in
          let overlap =
            prefixes (join_url_path c.subscription_path feed) c.panel_path c.subscription_path
              (rw (← same) panel) feeds in
          let clash = apart c e checks.2 in cc
    ]
