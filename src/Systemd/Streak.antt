-- ===== src/Systemd/Streak.antt =====
-- internal/systemd/systemd.go: what WaitActive has seen when it ends.
use olcrtc_panel_lite.Common.{
  ◌-◌, ◌≤◌, ◌≡◌, ◌≢◌, ◌⊎◌, refl, ap, true, false, List, [], ◌∷◌, ◌++◌, ◌==◌, All, Bool-cases, inl,
  inr, arith,
}
use olcrtc_panel_lite.Text.{codes, text_eq}
use olcrtc_panel_lite.Model.{Time}
use olcrtc_panel_lite.Systemd.Wait.{
  Poll, Outcome, active, entered_failed, timed_out, is_running, running_since, is_stable,
  wait_active,
}

-- a poll that answered with a running instance
abbrev pub Running : Poll → Type 0
Running p = is_running p ≡ true

-- the clock at the first of the polls that end with `last`
abbrev pub first_mark : List Poll → Poll → Time
first_mark [] last = last.marked
first_mark (p ∷ run) last = p.marked

-- some consecutive polls all found the instance running, and from the clock at the first of them to
-- the comparison at the last there was a second
pub data Stable (ps : List Poll) : Type 0 where
  stable :
      (before run : List Poll) (last : Poll) (after : List Poll)
      → ps ≡ before ++ (run ++ (last ∷ after))
      → All Running run
      → Running last
      → 1000000000 ≤ last.checked - first_mark run last
      → Stable ps

-- the first polls found it running, a second after `since`
data Since (since : Time) (ps : List Poll) : Type 0 where
  a_second :
      (run : List Poll) (last : Poll) (after : List Poll)
      → since ≢ 0
      → ps ≡ run ++ (last ∷ after)
      → All Running run
      → Running last
      → 1000000000 ≤ last.checked - since
      → Since since ps

Seen : Time → List Poll → Type 0
Seen since ps = Since since ps ⊎ Stable ps

later : (since : Time) (p : Poll) (ps : List Poll) → Stable ps → Seen since (p ∷ ps)
unfolding Seen
later since p ps (stable before run last after e hs h d) =
    inr (stable (p ∷ before) run last after (ap (λ l. p ∷ l) e) hs h d)

is_stable-lem :
    (since : Time) (p : Poll)
    → is_stable since p ≡ true
    → Running p × (1000000000 ≤ p.checked - running_since since p)
unfolding is_stable
is_stable-lem since p h = (ground arith, ground arith)

-- runningSince after a running answer
running_since_zero :
    (since : Time) (p : Poll) → Running p → (since == 0) ≡ true → running_since since p ≡ p.marked
unfolding running_since
running_since_zero since p r z = rw r (rw z)

running_since_kept :
    (since : Time) (p : Poll) → Running p → (since == 0) ≡ false → running_since since p ≡ since
unfolding running_since
running_since_kept since p r z = rw r (rw z)

now_stable :
    (since : Time) (p : Poll) (ps : List Poll) → is_stable since p ≡ true → Seen since (p ∷ ps)
unfolding Seen
now_stable since p ps h =
    let s = is_stable-lem since p h in
    elim (Bool-cases (since == 0)) [
      | inl z ↦ inr (stable [] [] p ps refl tt s.0 (rw (← running_since_zero since p s.0 z) s.1))
      | inr z ↦ inl (
          a_second [] p ps (ground arith) refl tt s.0 (rw (← running_since_kept since p s.0 z) s.1))
    ]

-- one running answer in front of what follows
continued :
    (since : Time) (p : Poll) (ps : List Poll)
    → Since (running_since since p) ps
    → Seen since (p ∷ ps)
unfolding Seen
continued since p ps (a_second run last after nz e hs h d) = elim (Bool-cases (is_running p)) [
  | inr r ↦ absurd (nz (unfold running_since in rw r))
  | inl r ↦ elim (Bool-cases (since == 0)) [
    | inl z ↦ inr (
        stable [] (p ∷ run) last after (ap (λ l. p ∷ l) e) (r, hs) h
          (rw (← running_since_zero since p r z) d))
    | inr z ↦ inl (
        a_second (p ∷ run) last after (ground arith) (ap (λ l. p ∷ l) e) (r, hs) h
          (rw (← running_since_kept since p r z) d))
  ]
]

active-Seen : (since : Time) (ps : List Poll) → wait_active since ps ≡ active → Seen since ps
unfolding wait_active Seen
active-Seen since [] h = cc
active-Seen since (p ∷ ps) h = elim (Bool-cases (is_stable since p)) [
  | inl e ↦ now_stable since p ps e
  | inr e ↦ elim (active-Seen (running_since since p) ps (ground arith)) [
    | inl s ↦ continued since p ps s
    | inr s ↦ later since p ps s
  ]
]

-- When WaitActive returns without an error, some consecutive polls all found the instance running,
-- for at least a second from the clock at the first of them to the comparison at the last.
pub wait_active-Stable : (ps : List Poll) → wait_active 0 ps ≡ active → Stable ps
unfolding Seen
wait_active-Stable ps h = elim (active-Seen 0 ps h) [
  | inl (a_second run last after nz e hs r d) ↦ absurd (nz refl)
  | inr s ↦ s
]

-- a poll behind which WaitActive polls again
pub record Continues (p : Poll) : Type 0 where
  pub in_time : p.expired ≡ false
  pub not_failed : text_eq p.state (codes "failed") ≡ false

-- why it ends at a poll
pub data Reason (p : Poll) (o : Outcome) : Type 0 where
  runs : is_running p ≡ true → o ≡ active → Reason p o
  fails : text_eq p.state (codes "failed") ≡ true → o ≡ entered_failed → Reason p o
  late : p.expired ≡ true → text_eq p.state (codes "failed") ≡ false → o ≡ timed_out → Reason p o

-- it ends at one of the polls, with its reason, and polled again behind all earlier ones
pub data Ended (ps : List Poll) (o : Outcome) : Type 0 where
  ended :
      (before : List Poll) (p : Poll) (after : List Poll)
      → ps ≡ before ++ (p ∷ after)
      → All Continues before
      → Reason p o
      → Ended ps o
