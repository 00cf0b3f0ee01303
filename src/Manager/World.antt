-- ===== src/Manager/World.antt =====
-- internal/instance/manager.go: the state that a Manager changes, and what its calls answer. A call of
-- the operating system, of SQLite or of a random source takes the answer that stands at the current
-- tick, and moves the tick on.
use olcrtc_panel_lite.Common.{ℕ, suc, Bool, Option, List, Result, ok, err, if◌then◌else◌, outside}
use olcrtc_panel_lite.Text.{Text}
use olcrtc_panel_lite.Model.{Instance, Time}
use olcrtc_panel_lite.Instance.Net.{NetLib}
use olcrtc_panel_lite.Instance.Config.Validate.{ConfigError}
use olcrtc_panel_lite.Instance.Config.Yaml.{YamlConfig, RenderError}
use olcrtc_panel_lite.Instance.Uri.Client.{UriError}
use olcrtc_panel_lite.Security.Crypto.{Bytes, Crypto}
use olcrtc_panel_lite.Security.Tokens.{SecurityError}
use olcrtc_panel_lite.Store.Db.{Db, StoreError}
use olcrtc_panel_lite.Store.Settings.{SettingRow}
use olcrtc_panel_lite.Systemd.Service.{Status}
use olcrtc_panel_lite.Systemd.Wait.{Poll}

-- the database, the contents of the files by their paths, and the calls that were made
pub record World : Type 0 where
  pub db : Db
  pub settings : List SettingRow
  pub files : Text → Option Text
  pub tick : ℕ

pub data Verb : Type 0 where
  start_unit stop_unit restart_unit disable_unit : Verb

-- the libraries, and the answers by tick
pub record Host : Type 0 where
  pub net : NetLib
  pub crypto : Crypto
  pub marshal : YamlConfig → Option Text
  pub parses : Text → Bool
  -- filepath.Join of two parts, os.Stat without an error, and the claim "exp" of a JSON object
  pub path_join : Text → Text → Text
  pub exists : Text → Bool
  pub expiry_claim : Bytes → Option ℕ
  -- a call on a file, and a statement, that does not fail
  pub disk : ℕ → Bool
  pub statement : ℕ → Bool
  -- rand.Read, uuid.NewString and time.Now
  pub draw : ℕ → Option Bytes
  pub uuid : ℕ → Text
  pub clock : ℕ → Time
  -- the controller: an answer of Status with its error, the error of an action, the polls of a
  -- WaitActive, and the answer of Logs
  pub status : ℕ → ℕ → Status × Bool
  pub action : ℕ → Verb → ℕ → Option Text
  pub polls : ℕ → ℕ → List Poll
  pub journal : ℕ → ℕ → ℕ → Option Text

-- Manager, its parts apart
pub record Manager : Type 0 where
  pub instances_dir : Text
  pub runtime_dir : Text
  pub release_dir : Text
  pub max_instances : ℕ

pub data ManagerError : Type 0 where
  bad_config : ConfigError → ManagerError
  limit_reached database_failed disk_failed no_key bad_key_size : ManagerError
  bad_statement : StoreError → ManagerError
  bad_secret : SecurityError → ManagerError
  bad_yaml : RenderError → ManagerError
  bad_uri : UriError → ManagerError
  unit_failed : Text → ManagerError
  status_failed_for : Instance → ManagerError
  not_active status_failed unsupported_format logs_failed : ManagerError
  -- `rolled back: %w`
  restored : ManagerError → ManagerError

-- the guard of SetMaxInstances
unfoldable pub new_limit : ℕ → ℕ → ℕ
new_limit limit value = if outside 1 1000 value then limit else value

-- SetMaxInstances
unfoldable pub set_max_instances : Manager → ℕ → Manager
set_max_instances m value = record m { max_instances = new_limit m.max_instances value }

abbrev pub Action : Type 0 → Type 0
Action A = World → World × Result ManagerError A

-- `if err != nil { return ..., err }` between two calls
unfoldable pub then_on :
    {A B : Type 0} → World × Result ManagerError A → (A → Action B) → World × Result ManagerError B
then_on (w, err problem) next = (w, err problem)
then_on (w, ok value) next = next value w

infixl 5 ◌>>=◌
abbrev pub ◌>>=◌ : {A B : Type 0} → Action A → (A → Action B) → Action B
(call >>= next) w = then_on (call w) next

infixl 5 ◌>>◌
abbrev pub ◌>>◌ : {A B : Type 0} → Action A → Action B → Action B
(call >> next) w = then_on (call w) (λ value. next)

abbrev pub return : {A : Type 0} → A → Action A
return value w = (w, ok value)

abbrev pub fail : {A : Type 0} → ManagerError → Action A
fail problem w = (w, err problem)

-- a step that only computes
unfoldable pub given : {E A : Type 0} → (E → ManagerError) → Result E A → Action A
given wrap (ok value) w = (w, ok value)
given wrap (err problem) w = (w, err (wrap problem))

-- an error that is put aside
unfoldable pub kept :
    {A : Type 0}
    → World × Result ManagerError A
    → World × Result ManagerError (Result ManagerError A)
kept (w, outcome) = (w, ok outcome)

abbrev pub attempt : {A : Type 0} → Action A → Action (Result ManagerError A)
attempt call w = kept (call w)

-- `_ = call`
abbrev pub ignore : {A : Type 0} → Action A → Action (Unit {0})
ignore call = attempt call >>= λ outcome. return tt

-- the tick of a call
abbrev pub now : Action ℕ
now w = (record w { tick = suc w.tick }, ok w.tick)

abbrev pub unless : Bool → ManagerError → Action (Unit {0})
unless holds problem = if holds then return tt else fail problem
