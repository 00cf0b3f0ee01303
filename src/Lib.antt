-- ===== src/Lib.antt =====
-- Verification library of olcrtc-panel-lite: a panel that runs OLCRTC servers as systemd services,
-- gives out their URIs and subscription feeds, and accounts for their traffic.
--
-- The parts, and the files of the repository that they model:
--   * Model: internal/model/model.go, the records that the store keeps and the API shows.
--   * Instance.Uri: internal/instance/uri.go. Client has ClientURI and StripAuthToken, Accept has
--     ValidateClientURI, Standard has StandardURI (Render) and ValidateStandardURI (Check).
--   * Instance.Config: internal/instance/config.go. Defaults has NormalizeRoomID and ApplyDefaults,
--     Validate has Validate, Proxy has ParseProxy, Yaml has RenderYAML, Warning has
--     CompatibilityWarning.
--   * Systemd: internal/systemd/systemd.go. Service has Status, unit and mapState, Show the readers of
--     what systemctl prints, Manage the Manager with its actions, Wait has WaitActive.
--   * Subscription: internal/subscription/service.go. Lines has safeLine, humanBytes and the lines of
--     a feed, Totals has aggregateEntries and TrafficHeader, Feed has render and Summary, Mirror has
--     Bundle, SyncMirror and Delete.
--   * Store: internal/store. Traffic has the ledger of traffic.go; on the tables of Db, Instances,
--     Subscriptions and Entries have instances.go and subscriptions.go, and Statements runs their
--     writes one after another; Settings has settings.go and Sessions auth.go. Rows has the
--     statements of SQL on a list of rows.
--   * Security: internal/security/security.go. Tokens has RandomHex, RandomToken and the hashed
--     tokens, Passwords HashPassword and VerifyPassword, Secrets the AES-GCM envelopes, MasterKey
--     LoadOrCreateMasterKey.
--   * Manager: internal/instance/manager.go. World is the state and the answers of its calls, Files
--     atomicWrite and the files of an instance, Units the calls of the store and of systemd, Update
--     has Update, RotateKey and RotateClientID, Lifecycle Create, Duplicate, Delete, the actions on
--     units and UpdateWBToken, Queries List, Get, Logs and URI, Reconcile the start of the panel.
--   * Panel: internal/config/config.go. Paths has the mount paths and the public origin, Settings
--     Config, its Validate and the public URLs.
--   * Common and Text: numbers, lists, results, and what the panel uses of Go's strings and strconv.
--   * Tests: the theorems at sample data.
-- A definition has the name of the Go function in snake_case, and what the function checks on the
-- way is split into helpers whose comments name the lines they stand for. The feed uses the URIs of
-- Instance.Uri; RenderYAML and StandardURI use the validation of their own files.
--
-- How the code is read:
--   * A string is the list of the code points of valid UTF-8; an index of an ASCII byte is the number
--     of code points before it, and len counts the bytes of the encoding.
--   * int and int64 are 64-bit patterns on the natural numbers, whose sums wrap around and whose order
--     compares the patterns with the sign bit flipped; a time is the nanoseconds since Go's zero time.
--   * An error is a constructor for its place in the code; its text is left out.
--   * State is passed explicitly: the states of a Manager, the tables of the ledger, the world of a
--     Service. A lock is left out, since each operation is one step.
--   * 20 rounds of digits are enough for a uint64 (parse_uint-format_uint), 11 rounds of
--     float_unit for a value below 2 ^ 63; every other loop is recursion on a list.
--   * Of a call that can fail, the manager takes the answer that stands at the tick of the call, so
--     that a theorem speaks of every pattern of failures, unless it takes the disk and the database
--     to work. Owners and modes of files, and directories, are left out.
--   * PRAGMA foreign_keys is a field of the tables: Open sets it on the connection that it opens, and a
--     connection that replaces that one has it off. The cascades and the checks of references depend
--     on it, and what needs it on says so.
--
-- Parameters, for code that is not part of the repository: net/url, net and time (NetLib), yaml,
-- the commands systemctl and journalctl (Systemd.Manage.Host), SQLite's sum and sha256 (Database),
-- base64, AES-GCM, SHA-256 and Argon2 (Crypto), files, random numbers and clocks (Manager.World.Host),
-- and the text of a time. The store, the manager of instances, the secrets and the mirror client are
-- an interface of the subscription service (Sources, Backend); the controller of units is one of the
-- manager.
--
-- Not modelled: the opening and migration of the database file, the collector of the journal, the
-- reading of the panel's configuration file, the HTTP server, backups, certificates, the mirror's HTTP calls,
-- redaction, assets and scripts; they are input and output or calls of libraries, or wait for their
-- turn.
pub mod Common
pub mod Text
pub mod Model
pub mod Instance
pub mod Systemd
pub mod Subscription
pub mod Store
pub mod Security
pub mod Manager
pub mod Panel
pub mod Tests
