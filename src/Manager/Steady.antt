-- ===== src/Manager/Steady.antt =====
-- internal/instance/manager.go: calls that change neither a file nor a table.
use olcrtc_panel_lite.Common.{
  ℕ, suc, ◌≡◌, refl, sym, ap, ◌∙◌, Bool, true, false, not, ◌&&◌, Result, ok, err, ok-injective,
  Bool-cases, inl, inr,
}
use olcrtc_panel_lite.Text.{Text, is_empty}
use olcrtc_panel_lite.Model.{Instance}
use olcrtc_panel_lite.Instance.Net.{NetLib}
use olcrtc_panel_lite.Instance.Config.Defaults.{apply_defaults}
use olcrtc_panel_lite.Security.Secrets.{encrypt}
use olcrtc_panel_lite.Store.Instances.{instance}
use olcrtc_panel_lite.Manager.World.{
  World, Host, Manager, ManagerError, bad_secret, bad_statement, database_failed, Action, then_on,
  ◌>>=◌, given, unless,
}
use olcrtc_panel_lite.Manager.Secrets.{sealed}
use olcrtc_panel_lite.Manager.Files.{read_file, key_path, key_of_file, read_key}
use olcrtc_panel_lite.Manager.Units.{statement, store_instance}
use olcrtc_panel_lite.Manager.Update.{new_secret, prepared}
use olcrtc_panel_lite.Manager.Reliable.{at_tick}
use olcrtc_panel_lite.Manager.Rollback.{Recovers}

-- only the tick moves
abbrev pub Steady : {A : Type 0} → Action A → Type 0
Steady call = (w : World) → (n : ℕ) × ((call w).0 ≡ at_tick w n)

given-world :
    {E A : Type 0} (wrap : E → ManagerError) (o : Result E A) (w : World) → (given wrap o w).0 ≡ w
unfolding given
given-world wrap (ok a) w = refl
given-world wrap (err e) w = refl

pub given-Steady : {E A : Type 0} (wrap : E → ManagerError) (o : Result E A) → Steady (given wrap o)
given-Steady wrap o w = (w.tick, given-world wrap o w)

then_on-world :
    {A B : Type 0} (o : World × Result ManagerError A) (next : A → Action B) (w : World) (n : ℕ)
    → o.0 ≡ at_tick w n
    → ((a : A) → Steady (next a))
    → (k : ℕ) × ((then_on o next).0 ≡ at_tick w k)
unfolding then_on
then_on-world (v, err e) next w n h s = (n, h)
then_on-world (v, ok a) next w n h s =
    let (k, moved) = s a v in (k, moved ∙ ap (λ u. at_tick u k) h)

pub bind-Steady :
    {A B : Type 0} (call : Action A) (next : A → Action B)
    → Steady call
    → ((a : A) → Steady (next a))
    → Steady (call >>= next)
bind-Steady call next s k w = let (n, h) = s w in then_on-world (call w) next w n h k

-- a call that moves only the tick, before one that recovers
pub Recovers-bind :
    {A B : Type 0} (id : ℕ) (w : World) (o : World × Result ManagerError A) (next : A → Action B)
    (n : ℕ)
    → o.0 ≡ at_tick w n
    → ((a : A) → o.1 ≡ ok a → Recovers id w (next a (at_tick w n)))
    → Recovers id w (then_on o next)
unfolding then_on
Recovers-bind id w (v, ok a) next n h k = rw h (k a refl)
Recovers-bind id w (v, err e) next n h k =
    λ problem q. rw h (record { same_files = λ p. refl; same_tables = inl refl })

-- what a success says of the call before it
pub then_on-ok :
    {A B : Type 0} (o : World × Result ManagerError A) (next : A → Action B) (b : B)
    → (then_on o next).1 ≡ ok b
    → (a : A) × (o.1 ≡ ok a) × ((next a (o.0)).1 ≡ ok b)
unfolding then_on
then_on-ok (v, ok a) next b h = (a, refl, h)
then_on-ok (v, err e) next b h = cc

-- the world before a rollback, at another tick
pub Recovers-at_tick :
    {A : Type 0} (id : ℕ) (w : World) (n : ℕ) (o : World × Result ManagerError A)
    → Recovers id (at_tick w n) o
    → Recovers id w o
Recovers-at_tick id w n o k problem h =
    let u = k problem h in record { same_files = u.same_files; same_tables = u.same_tables }

-- the same inside a chain that began at `w`
pub Recovers-step :
    {A B : Type 0} (id : ℕ) (w : World) (n : ℕ) (call : Action A) (next : A → Action B)
    → Steady call
    → ((a : A) (k : ℕ) → (call (at_tick w n)).1 ≡ ok a → Recovers id w (next a (at_tick w k)))
    → Recovers id w ((call >>= next) (at_tick w n))
Recovers-step id w n call next s k =
    let (j, moved) = s (at_tick w n) in
    Recovers-at_tick id w n _ (
      Recovers-bind id (at_tick w n) (call (at_tick w n)) next j moved (λ a e problem h.
        let u = k a j e problem h in
        record { same_files = u.same_files; same_tables = u.same_tables }))

pub Recovers-id :
    {A : Type 0} (id other : ℕ) (w : World) (o : World × Result ManagerError A)
    → id ≡ other
    → Recovers id w o
    → Recovers other w o
Recovers-id id other w o e k = rw (← e) k

pub given-ok :
    {E A : Type 0} (wrap : E → ManagerError) (o : Result E A) (w : World) (a : A)
    → (given wrap o w).1 ≡ ok a
    → o ≡ ok a
unfolding given
given-ok wrap (ok b) w a h = ap ok (ok-injective h)
given-ok wrap (err e) w a h = cc

defaults-id : (net : NetLib) (item : Instance) → (apply_defaults net item).id ≡ item.id
unfolding apply_defaults
defaults-id net item = refl

module _ (host : Host) where
  unless-Steady : (b : Bool) (problem : ManagerError) → Steady (unless b problem)
  unless-Steady true problem w = (w.tick, refl)
  unless-Steady false problem w = (w.tick, refl)

  pub statement-Steady : Steady (statement host)
  unfolding then_on
  statement-Steady w =
      unless-Steady (host.statement w.tick) database_failed (at_tick w (suc w.tick))

  -- a read of an instance
  pub store_instance-Steady : (id : ℕ) → Steady (store_instance host id)
  unfolding store_instance
  store_instance-Steady id =
      bind-Steady (statement host) (λ done w. given (bad_statement) (instance w.db id) w)
        statement-Steady (λ done w. given-Steady bad_statement (instance w.db id) w)

  sealed-Steady : (plain : Text) → Steady (sealed host plain)
  unfolding sealed then_on
  sealed-Steady plain w = (
    suc w.tick,
    given-world bad_secret (encrypt host.crypto (host.draw w.tick) plain) (at_tick w (suc w.tick)),
  )

  pub read_file-Steady : (path : Text) → Steady (read_file host path)
  unfolding read_file then_on
  read_file-Steady path w = (suc w.tick, refl)

  module _ (m : Manager) where
    pub read_key-Steady : (id : ℕ) → Steady (read_key host m id)
    unfolding read_key
    read_key-Steady id =
        bind-Steady (read_file host (key_path host m id)) _ (read_file-Steady (key_path host m id))
          (λ text. given-Steady (λ e. e) (key_of_file host m text))

    new_secret-Steady :
        (value old : Text) (clear : Bool) → Steady (new_secret host m value old clear)
    unfolding new_secret
    new_secret-Steady value old clear w = elim (Bool-cases (is_empty value && not clear)) [
      | inl e ↦ rw e (w.tick, refl)
      | inr e ↦ rw e (elim (Bool-cases clear) [
        | inl c ↦ rw c (w.tick, refl)
        | inr c ↦ rw c (sealed-Steady value w)
      ])
    ]

    pub prepared-Steady : (old item : Instance) (a b : Bool) → Steady (prepared host m old item a b)
    unfolding prepared
    prepared-Steady old item a b =
        bind-Steady _ _ (new_secret-Steady _ _ a)
          (λ token. bind-Steady _ _ (new_secret-Steady _ _ b) (λ proxy w. (w.tick, refl)))

    -- the identifier of what Update stores
    pub prepared-id :
        (old item next : Instance) (a b : Bool) (w : World)
        → (prepared host m old item a b w).1 ≡ ok next
        → next.id ≡ item.id
    unfolding prepared
    prepared-id old item next a b w h =
        let (token, e, h1) = then_on-ok _ _ next h in
        let (proxy, f, h2) = then_on-ok _ _ next h1 in
        let same = ok-injective h2 in
        sym (ap (λ (i : Instance). i.id) same) ∙ defaults-id host.net item
