-- ===== src/Subscription/Cleanup.antt =====
-- internal/subscription/service.go: the order of Delete, the remote mirror before the local state.
use olcrtc_panel_lite.Common.{
  ◌≡◌, refl, sym, ap, ◌∙◌, Bool, true, false, Option, none, some, Result, Check, ok, err, if_true,
  if_false, inl, inr, Bool-cases,
}
use olcrtc_panel_lite.Text.{Text}
use olcrtc_panel_lite.Model.{Subscription}
use olcrtc_panel_lite.Subscription.Mirror.{
  Client, Backend, MirrorError, mirror_may_exist, mirror_client, delete_local, delete_after,
  delete_mirrored, delete_found, delete,
}

module _ (b : Backend) where
  -- a Delete that came to the local state: without a mirror, or after the remote one is gone
  pub data Deleted (w : b.World) (slug : Text) (result : b.World × Check MirrorError) : Type 0 where
    without_mirror :
        (sub : Subscription)
        → (b.sources w).subscription slug ≡ some sub
        → mirror_may_exist sub ≡ false
        → result ≡ delete_local b w slug
        → Deleted w slug result
    behind_mirror :
        (client : Client) (w' : b.World)
        → mirror_client b w ≡ ok client
        → b.remote_delete w client slug ≡ (w', true)
        → result ≡ delete_local b w' slug
        → Deleted w slug result

  after-Deleted :
      (w : b.World) (slug : Text) (client : Client) (p : b.World × Bool)
      → mirror_client b w ≡ ok client
      → b.remote_delete w client slug ≡ p
      → (delete_after b slug p).1 ≡ ok tt
      → Deleted w slug (delete_after b slug p)
  unfolding delete_after
  after-Deleted w slug client (w', true) c e h = behind_mirror client w' c e refl
  after-Deleted w slug client (w', false) c e h = cc

  mirrored-Deleted :
      (w : b.World) (slug : Text) (r : Result MirrorError Client)
      → mirror_client b w ≡ r
      → (delete_mirrored b w slug r).1 ≡ ok tt
      → Deleted w slug (delete_mirrored b w slug r)
  unfolding delete_mirrored
  mirrored-Deleted w slug (err e) c h = cc
  mirrored-Deleted w slug (ok client) c h = after-Deleted w slug client _ c refl h

  found-Deleted :
      (w : b.World) (slug : Text) (o : Option Subscription)
      → (b.sources w).subscription slug ≡ o
      → (delete_found b w slug o).1 ≡ ok tt
      → Deleted w slug (delete_found b w slug o)
  unfolding delete_found
  found-Deleted w slug none e h = cc
  found-Deleted w slug (some sub) e h = elim (Bool-cases (mirror_may_exist sub)) [
    | inl m ↦
        rw
          (if_true (mirror_may_exist sub) (delete_mirrored b w slug (mirror_client b w))
            (delete_local b w slug) m)
          (mirrored-Deleted w slug (mirror_client b w) refl (
            ap (λ x. x.1)
              (sym (
                if_true (mirror_may_exist sub) (delete_mirrored b w slug (mirror_client b w))
                  (delete_local b w slug) m))
            ∙ h))
    | inr m ↦ without_mirror sub e m (
        if_false (mirror_may_exist sub) (delete_mirrored b w slug (mirror_client b w))
          (delete_local b w slug) m)
  ]

  -- When Delete succeeds, the subscription was deleted locally either with no mirror to be feared, or in
  -- the state that the successful removal of the remote mirror left.
  pub delete-Deleted :
      (w : b.World) (slug : Text) → (delete b w slug).1 ≡ ok tt → Deleted w slug (delete b w slug)
  unfolding delete
  delete-Deleted w slug h = found-Deleted w slug ((b.sources w).subscription slug) refl h
