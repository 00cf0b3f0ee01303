-- ===== src/Manager/Sanitized.antt =====
-- internal/instance/manager.go: List and Get show no secret.
use olcrtc_panel_lite.Common.{
  ℕ, ◌≡◌, refl, ap, Bool, true, false, List, [], ◌∷◌, if◌then◌else◌, ok, ok-injective, All,
}
use olcrtc_panel_lite.Model.{Instance}
use olcrtc_panel_lite.Systemd.Service.{Status}
use olcrtc_panel_lite.Manager.World.{World, Host, Manager, status_failed_for, then_on, return, fail}
use olcrtc_panel_lite.Manager.Units.{
  store_instance, store_instances, with_status, decorate_with_error, decorate,
}
use olcrtc_panel_lite.Manager.Queries.{decorate_all, list, get}
use olcrtc_panel_lite.Manager.Steady.{then_on-ok}

abbrev pub HasNoSecret : Instance → Type 0
HasNoSecret item = (item.auth_token ≡ []) × (item.outbound_proxy ≡ [])

with_status-HasNoSecret :
    (host : Host) (item : Instance) (s : Status) → HasNoSecret (with_status host item s)
unfolding with_status
with_status-HasNoSecret host item s = (refl, refl)

-- what decorate answers, its error apart
decorate_with_error-HasNoSecret :
    (host : Host) (item : Instance) (w : World) (found : Instance × Bool)
    → (decorate_with_error host item w).1 ≡ ok found
    → HasNoSecret (found.0)
unfolding decorate_with_error then_on
decorate_with_error-HasNoSecret host item w found h =
    let same = ap (λ (f : Instance × Bool). f.0) (ok-injective h) in
    rw (← same) (with_status-HasNoSecret host _ _)

decorate_all-HasNoSecret :
    (host : Host) (m : Manager) (items found : List Instance) (w : World)
    → (decorate_all host m items w).1 ≡ ok found
    → All HasNoSecret found
unfolding decorate_all
decorate_all-HasNoSecret host m [] found w h = let same = ok-injective h in rw (← same) tt
decorate_all-HasNoSecret host m (item ∷ items) found w h =
    let (one, e, h1) = then_on-ok (decorate_with_error host item w) _ found h in
    let (rest, f, h2) = then_on-ok _ _ found h1 in
    let same = ok-injective h2 in
    rw (← same) (
      decorate_with_error-HasNoSecret host item w one e,
      decorate_all-HasNoSecret host m items rest _ f,
    )

status_kept :
    (failed : Bool) (item found : Instance) (w : World)
    → ((if failed then fail (status_failed_for item) else return item) w).1 ≡ ok found
    → item ≡ found
status_kept true item found w h = cc
status_kept false item found w h = ok-injective h

-- No instance that List returns, even where a Status failed, carries its token or its proxy, encrypted
-- or plain.
pub list-HasNoSecret :
    (host : Host) (m : Manager) (w : World) (items : List Instance)
    → (list host m w).1 ≡ ok items
    → All HasNoSecret items
unfolding list
list-HasNoSecret host m w items h =
    let (rows, e, h1) = then_on-ok (store_instances host w) _ items h in
    decorate_all-HasNoSecret host m rows items _ h1

-- An instance that Get returns carries neither its token nor its proxy, encrypted or plain.
pub get-HasNoSecret :
    (host : Host) (m : Manager) (w : World) (id : ℕ) (item : Instance)
    → (get host m id w).1 ≡ ok item
    → HasNoSecret item
unfolding get decorate
get-HasNoSecret host m w id item h =
    let (row, e, h1) = then_on-ok (store_instance host id w) _ item h in
    let (found, f, h2) =
      then_on-ok (decorate_with_error host row ((store_instance host id w).0)) _ item h1 in
    let same = status_kept (found.1) (found.0) item _ h2 in
    rw (← same) (decorate_with_error-HasNoSecret host row _ found f)
