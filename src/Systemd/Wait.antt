-- ===== src/Systemd/Wait.antt =====
-- internal/systemd/systemd.go: WaitActive, as a loop over the polls of the controller.
use olcrtc_panel_lite.Common.{◌-◌, Bool, not, ◌&&◌, List, [], ◌∷◌, leb, ◌==◌, if◌then◌else◌}
use olcrtc_panel_lite.Text.{Text, codes, text_eq}
use olcrtc_panel_lite.Model.{Time}

-- one round: what Status answered, the clock where runningSince may be set and where it is
-- compared, and whether the select took ctx.Done() rather than the tick
pub record Poll : Type 0 where
  pub failed : Bool
  pub state : Text
  pub marked : Time
  pub checked : Time
  pub expired : Bool

-- the ways WaitActive ends, and `waiting` where the polls end first
pub data Outcome : Type 0 where
  active entered_failed timed_out waiting : Outcome

unfoldable pub is_running : Poll → Bool
is_running p = not p.failed && text_eq p.state (codes "running")

-- runningSince after the answer
unfoldable pub running_since : Time → Poll → Time
running_since since p = if is_running p then (if since == 0 then p.marked else since) else 0

-- `time.Since(runningSince) >= time.Second` on a running answer
unfoldable pub is_stable : Time → Poll → Bool
is_stable since p = is_running p && leb 1000000000 (p.checked - running_since since p)

-- WaitActive from a value of runningSince
unfoldable pub wait_active : Time → List Poll → Outcome
wait_active since [] = waiting
wait_active since (p ∷ ps) =
    let rest = wait_active (running_since since p) ps in
    if is_stable since p
    then active
    else if text_eq p.state (codes "failed")
    then entered_failed
    else if p.expired
    then timed_out
    else rest
