-- ===== src/Store/Sessions.antt =====
-- internal/store/auth.go: the administrator, the sessions and the audit log. A time column holds the text
-- of formatTime, by which SQLite compares it; reading the text back gives the time.
use olcrtc_panel_lite.Common.{
  ℕ, suc, Bool, not, ◌&&◌, ◌||◌, Option, none, some, List, [], ◌∷◌, ◌==◌, if◌then◌else◌, any,
  Result, Check, ok, err, length, take, outside,
}
use olcrtc_panel_lite.Text.{Text, text_eq}
use olcrtc_panel_lite.Model.{Time}
use olcrtc_panel_lite.Instance.Uri.Standard.Render.{text_lt}
use olcrtc_panel_lite.Store.Rows.{find_row, update_rows, delete_rows, append_row}
use olcrtc_panel_lite.Store.Db.{StoreError, no_rows, not_unique, broken_reference}

pub record Admin : Type 0 where
  pub id : ℕ
  pub username : Text
  pub password_hash : Text
  pub created_at : Time
  pub updated_at : Time

pub record Session : Type 0 where
  pub id_hash : Text
  pub admin_id : ℕ
  pub csrf_hash : Text
  pub created_at : Time
  pub expires_at : Time
  pub last_seen_at : Time
  pub ip : Text
  pub user_agent : Text

pub record AuditEvent : Type 0 where
  pub id : ℕ
  pub action : Text
  pub object_type : Text
  pub object_id : Text
  pub result : Text
  pub actor_ip : Text
  pub details_redacted : Text
  pub created_at : Time

-- admin_users, sessions and audit_log, and PRAGMA foreign_keys of the connection
pub record AuthDb : Type 0 where
  pub foreign_keys : Bool
  pub admins : List Admin
  pub sessions : List Session
  pub audit_log : List AuditEvent
  pub next_event : ℕ

-- AdminCount
unfoldable pub admin_count : AuthDb → ℕ
admin_count db = length db.admins

-- CreateAdmin, whose row has the identifier 1
unfoldable pub create_admin : AuthDb → Text → Text → Time → AuthDb × Check StoreError
create_admin db username password_hash now =
    if any (λ a. (a.id == 1) || text_eq a.username username) db.admins
    then (db, err not_unique)
    else (
      record db {
        admins = append_row db.admins (record {
          id = 1;
          username = username;
          password_hash = password_hash;
          created_at = now;
          updated_at = now;
        });
      },
      ok tt,
    )

unfoldable pub found_admin : Option Admin → Result StoreError Admin
found_admin none = err no_rows
found_admin (some a) = ok a

-- AdminByUsername and Admin
unfoldable pub admin_by_username : AuthDb → Text → Result StoreError Admin
admin_by_username db username = found_admin (find_row (λ a. text_eq a.username username) db.admins)

unfoldable pub admin : AuthDb → Result StoreError Admin
admin db = found_admin (find_row (λ a. a.id == 1) db.admins)

-- UpdateAdminCredentials; admin_users holds no row but that of the identifier 1, so no name clashes
unfoldable pub update_admin_credentials : AuthDb → Text → Text → Time → AuthDb
update_admin_credentials db username password_hash now = record db {
  admins =
      update_rows (λ a. a.id == 1)
        (λ a. record a { username = username; password_hash = password_hash; updated_at = now })
        db.admins;
  sessions = [];
}

abbrev pub has_hash : Text → Session → Bool
has_hash id_hash s = text_eq s.id_hash id_hash

-- CreateSession
unfoldable pub create_session : AuthDb → Session → AuthDb × Check StoreError
create_session db item =
    if any (has_hash item.id_hash) db.sessions
    then (db, err not_unique)
    else if db.foreign_keys && not (any (λ a. a.id == item.admin_id) db.admins)
    then (db, err broken_reference)
    else (record db { sessions = append_row db.sessions item }, ok tt)

unfoldable pub found_session : Option Session → Result StoreError Session
found_session none = err no_rows
found_session (some s) = ok s

-- DeleteSession and DeleteSessions
unfoldable pub delete_session : AuthDb → Text → AuthDb
delete_session db id_hash = record db { sessions = delete_rows (has_hash id_hash) db.sessions }

unfoldable pub delete_sessions : AuthDb → AuthDb
delete_sessions db = record db { sessions = [] }

-- TouchSession
unfoldable pub touch_session : AuthDb → Text → Time → Time → AuthDb
touch_session db id_hash seen expires = record db {
  sessions =
      update_rows (has_hash id_hash) (λ s. record s { last_seen_at = seen; expires_at = expires })
        db.sessions;
}

module _ (format_time : Time → Text) where
  -- expires_at > now
  unfoldable pub is_live : Time → Session → Bool
  is_live now s = text_lt (format_time now) (format_time s.expires_at)

  -- Session
  unfoldable pub session : AuthDb → Text → Time → Result StoreError Session
  session db id_hash now =
      found_session (find_row (λ s. has_hash id_hash s && is_live now s) db.sessions)

  -- CleanupSessions: expires_at <= now
  unfoldable pub cleanup_sessions : AuthDb → Time → AuthDb
  cleanup_sessions db now = record db {
    sessions = delete_rows (λ s. not (is_live now s)) db.sessions;
  }

-- AddAudit; an event without a time takes that of the clock
unfoldable pub add_audit : AuthDb → AuditEvent → Time → AuthDb
add_audit db item now = record db {
  audit_log = append_row db.audit_log (record item {
    id = db.next_event;
    created_at = if item.created_at == 0 then now else item.created_at;
  });
  next_event = suc db.next_event;
}

unfoldable pub reversed : {A : Type 0} → List A → List A
reversed [] = []
reversed (a ∷ rows) = append_row (reversed rows) a

-- Audit, on the rows in the order of their identifiers
unfoldable pub audit : AuthDb → ℕ → List AuditEvent
audit db limit = take (if outside 1 1000 limit then 200 else limit) (reversed db.audit_log)
