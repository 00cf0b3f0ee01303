-- ===== src/Systemd/Control.antt =====
-- internal/systemd/systemd.go: what the actions of a Manager do.
use olcrtc_panel_lite.Common.{
  ℕ, ◌≡◌, refl, Bool, true, false, ◌||◌, Option, none, some, List, [], ◌∷◌, Result, ok, err, All,
  ◌⊎◌, Bool-cases, inl, inr, Result,
}
use olcrtc_panel_lite.Text.{Text, codes, text_eq}
use olcrtc_panel_lite.Systemd.Service.{unit}
use olcrtc_panel_lite.Systemd.Manage.{
  Manager, Host, is_development, is_start, is_stop, check_of, reset_failed, systemctl_action,
  action,
}

-- a host that records its commands, the newest first, and answers them by a function
abbrev pub recorder : (List Text → Option Text) → Host
recorder answer = record {
  World = List (List Text);
  run = λ w command. (command ∷ w, answer command);
}

-- a command of systemctl on the unit of an instance, with one of the five words
pub data Fixed (id : ℕ) (command : List Text) : Type 0 where
  fixed :
      (verb name : Text)
      → unit id ≡ ok name
      → ((is_start verb || is_stop verb) || text_eq verb (codes "reset-failed")) ≡ true
      → command ≡ codes "systemctl" ∷ verb ∷ name ∷ []
      → Fixed id command

check_of-world : {W : Type 0} (p : W × Option Text) → (check_of p).0 ≡ p.0
unfolding check_of
check_of-world (w, none) = refl
check_of-world (w, some out) = refl

or_true : (a b : Bool) → a ≡ true → (a || b) ≡ true
or_true true b h = refl
or_true false b h = cc

reset_failed-Fixed :
    (answer : List Text → Option Text) (verb name : Text) (id : ℕ)
    → unit id ≡ ok name
    → All (Fixed id) (reset_failed (recorder answer) [] verb name)
unfolding reset_failed
reset_failed-Fixed answer verb name id h = elim (Bool-cases (is_start verb)) [
  | inl e ↦
      rw (e, All)
        (fixed (codes "reset-failed") name h (unfold is_start is_stop text_eq in refl) refl, tt)
  | inr e ↦ rw (e, All) tt
]

Result-cases : {E A : Type 0} (r : Result E A) → ((e : E) × (r ≡ err e)) ⊎ ((a : A) × (r ≡ ok a))
Result-cases (ok a) = inr (a, refl)
Result-cases (err e) = inl (e, refl)

systemctl_action-Fixed :
    (answer : List Text → Option Text) (verb : Text) (id : ℕ)
    → All (Fixed id) ((systemctl_action (recorder answer) [] verb id).0)
unfolding systemctl_action
systemctl_action-Fixed answer verb id = elim (Bool-cases (is_start verb || is_stop verb)) [
  | inr e ↦ rw (e, All) tt
  | inl e ↦
      rw (e, All)
        (elim (Result-cases (unit id)) [
          | inl (x, u) ↦ rw (u, All) tt
          | inr (name, u) ↦
              rw (u, All)
                (rw
                  (
                    check_of-world (
                      ◌∷◌ (codes "systemctl" ∷ verb ∷ name ∷ [])
                          (reset_failed (recorder answer) [] verb name),
                      answer (codes "systemctl" ∷ verb ∷ name ∷ []),
                    ),
                    All,
                  )
                  (
                    fixed verb name u (or_true (is_start verb || is_stop verb) _ e) refl,
                    reset_failed-Fixed answer verb name id u,
                  ))
        ])
]

-- Whatever the word, the identifier and the answers of the host, every command that an action runs is
-- systemctl with one of start, restart, stop, disable and reset-failed on the unit of that identifier.
pub action-Fixed :
    (answer : List Text → Option Text) (m : Manager) (verb : Text) (id : ℕ)
    → All (Fixed id) ((action (recorder answer) m [] verb id).1.0)
unfolding action
action-Fixed answer m verb id = elim (Bool-cases (is_development m)) [
  | inl e ↦ rw (e, All) tt
  | inr e ↦ rw (e, All) (systemctl_action-Fixed answer verb id)
]
