-- ===== src/Store/Revoked.antt =====
-- internal/store/auth.go: which sessions are found, and which are revoked.
use olcrtc_panel_lite.Common.{
  ℕ, zero, suc, ◌≤◌, ◌≡◌, refl, sym, ap, ◌∙◌, Bool, true, false, not, ◌&&◌, none, some, List, [],
  ◌∷◌, if◌then◌else◌, err, length, take, outside, outside-range, Bool-cases, if_true, if_false, inl,
  inr, two_64, ◌<◌, arith,
}
use olcrtc_panel_lite.Text.{Text}
use olcrtc_panel_lite.Model.{Time}
use olcrtc_panel_lite.Store.Rows.{find_row, delete_rows}
use olcrtc_panel_lite.Store.Db.{no_rows}
use olcrtc_panel_lite.Store.Sessions.{
  AuthDb, has_hash, found_session, is_live, session, cleanup_sessions, update_admin_credentials,
  delete_session, delete_sessions, audit, reversed,
}

-- rows that a search does not find do not matter to it
find_row-delete_rows :
    {A : Type 0} (p q : A → Bool) (rows : List A)
    → ((a : A) → q a ≡ true → p a ≡ false)
    → find_row p (delete_rows q rows) ≡ find_row p rows
unfolding find_row delete_rows
find_row-delete_rows p q [] h = refl
find_row-delete_rows p q (a ∷ rows) h = elim (Bool-cases (q a)) [
  | inl e ↦
      ap (find_row p) (if_true (q a) (delete_rows q rows) (a ∷ delete_rows q rows) e)
      ∙ (find_row-delete_rows p q rows h ∙ sym (if_false (p a) _ _ (h a e)))
  | inr e ↦
      ap (find_row p) (if_false (q a) (delete_rows q rows) (a ∷ delete_rows q rows) e)
      ∙ ap (λ l. if p a then some a else l) (find_row-delete_rows p q rows h)
]

not_both : (b c : Bool) → (b ≡ true → c ≡ true) → c ≡ false → b ≡ false
not_both true c h e = let q : true ≡ false = sym (h refl) ∙ e in cc
not_both false c h e = refl

left_true : (b c : Bool) → (b && c) ≡ true → b ≡ true
left_true true c h = refl
left_true false c h = cc

dead_not_found : (b c : Bool) → not c ≡ true → (b && c) ≡ false
dead_not_found b true h = cc
dead_not_found true false h = refl
dead_not_found false false h = refl

find_row_nothing :
    {A : Type 0} (p q : A → Bool) (rows : List A)
    → ((a : A) → p a ≡ true → q a ≡ true)
    → find_row p (delete_rows q rows) ≡ none
unfolding find_row delete_rows
find_row_nothing p q [] h = refl
find_row_nothing p q (a ∷ rows) h = elim (Bool-cases (q a)) [
  | inl e ↦
      ap (find_row p) (if_true (q a) (delete_rows q rows) (a ∷ delete_rows q rows) e)
      ∙ find_row_nothing p q rows h
  | inr e ↦
      ap (find_row p) (if_false (q a) (delete_rows q rows) (a ∷ delete_rows q rows) e)
      ∙ (if_false (p a) _ _ (not_both (p a) (q a) (h a) e) ∙ find_row_nothing p q rows h)
]

-- CleanupSessions removes no session that Session still finds at that time, and a session that was
-- deleted is not found at any time, nor is any session after DeleteSessions or after the credentials of
-- the administrator changed.
pub session_revoked :
    (format_time : Time → Text) (db : AuthDb) (id_hash username password_hash : Text)
    (now later : Time)
    → (session format_time (cleanup_sessions format_time db now) id_hash now
        ≡ session format_time db id_hash now)
      × (session format_time (delete_session db id_hash) id_hash later ≡ err no_rows)
      × (session format_time (delete_sessions db) id_hash later ≡ err no_rows)
      × (session format_time (update_admin_credentials db username password_hash now) id_hash later
          ≡ err no_rows)
unfolding session cleanup_sessions delete_session delete_sessions update_admin_credentials
    found_session find_row
session_revoked format_time db id_hash username password_hash now later = (
  ap found_session (
      find_row-delete_rows _ (λ s. not (is_live format_time now s)) db.sessions
        (λ s e. dead_not_found _ _ e)),
  ap found_session (find_row_nothing _ (has_hash id_hash) db.sessions (λ s e. left_true _ _ e)),
  refl,
  refl,
)

length-take : {A : Type 0} (n : ℕ) (rows : List A) → length (take n rows) ≤ n
length-take zero rows = omega arith
length-take (suc n) [] = omega arith
length-take (suc n) (a ∷ rows) = let k = length-take n rows in omega arith

-- Audit returns at most 1000 events, and at most as many as were asked for, or 200 where the number is
-- not between 1 and 1000.
pub length-audit :
    (db : AuthDb) (limit : ℕ)
    → limit < two_64
    → (length (audit db limit) ≤ 1000)
      × (length (audit db limit) ≤ (if outside 1 1000 limit then 200 else limit))
unfolding audit
length-audit db limit h =
    let bound = length-take (if outside 1 1000 limit then 200 else limit) (reversed db.audit_log) in
    (
      elim (Bool-cases (outside 1 1000 limit)) [
        | inl e ↦
            let le = length-take 200 (reversed db.audit_log) in
            rw (if_true _ 200 limit e) (omega arith)
        | inr e ↦
            let le = length-take limit (reversed db.audit_log) in
            let top = (outside-range 1 1000 limit h (omega arith) (omega arith) e).1 in
            rw (if_false _ 200 limit e) (omega arith)
      ],
      bound,
    )
