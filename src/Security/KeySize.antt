-- ===== src/Security/KeySize.antt =====
-- internal/security/security.go: what LoadOrCreateMasterKey returns is a key for NewSecrets.
use olcrtc_panel_lite.Common.{
  ◌≡◌, refl, sym, ap, ◌∙◌, Option, none, some, List, [], ◌∷◌, ◌==◌, ==_iff, length, ok, err, All,
  Bool-cases, if_true, if_false, inl, inr,
}
use olcrtc_panel_lite.Security.Crypto.{Bytes, Crypto}
use olcrtc_panel_lite.Security.Secrets.{new_secrets}
use olcrtc_panel_lite.Security.MasterKey.{
  MasterKeyError, Read, contents, not_exist, unreadable, Opening, opened, exists, refused, Pass,
  Loaded, store_key, open_key, generate_key, load_pass, load_or_create_master_key, invalid_size,
  cannot_read, cannot_generate, cannot_create, cannot_create_directory, cannot_write,
  cannot_protect,
}

-- rand.Read fills the 32 bytes that it is given
abbrev pub FillsKey : Pass → Type 0
FillsKey pass = (key : Bytes) → pass.drawn ≡ some key → length key ≡ 32

-- a key of 32 bytes, if there is a key
IsKeyLoaded : Option Loaded → Type 0
IsKeyLoaded o = (key : Bytes) → o ≡ some (ok key) → length key ≡ 32

read_key-IsKeyLoaded : (b : Bytes) → length b ≡ 32 → IsKeyLoaded (some (ok b))
unfolding IsKeyLoaded
read_key-IsKeyLoaded b h key e = let r : b ≡ key = cc in rw (← r) h

store_key-IsKeyLoaded :
    (pass : Pass) (key : Bytes) → length key ≡ 32 → IsKeyLoaded (some (store_key pass key))
unfolding store_key IsKeyLoaded
store_key-IsKeyLoaded pass key h k e = elim (Bool-cases pass.written) [
  | inr w ↦
      let q : ◌≡◌ {A = Option Loaded} (some (err cannot_write)) (some (ok k)) =
        ap some (sym (if_false _ _ _ w)) ∙ e in
      cc
  | inl w ↦ elim (Bool-cases pass.protected) [
    | inr p ↦
        let q : ◌≡◌ {A = Option Loaded} (some (err cannot_protect)) (some (ok k)) =
          ap some (sym (if_true _ _ _ w ∙ if_false _ _ _ p)) ∙ e in
        cc
    | inl p ↦
        let q : ◌≡◌ {A = Option Loaded} (some (ok key)) (some (ok k)) =
          ap some (sym (if_true _ _ _ w ∙ if_true _ _ _ p)) ∙ e in
        let r : key ≡ k = cc in rw (← r) h
  ]
]

refused_loads_nothing : (e : MasterKeyError) → IsKeyLoaded (some (err e))
unfolding IsKeyLoaded
refused_loads_nothing e key h = cc

open_key-IsKeyLoaded :
    (o : Opening) (pass : Pass) (key : Bytes) (again : Option Loaded)
    → length key ≡ 32
    → IsKeyLoaded again
    → IsKeyLoaded (open_key o pass key again)
unfolding open_key
open_key-IsKeyLoaded opened pass key again h k = store_key-IsKeyLoaded pass key h
open_key-IsKeyLoaded exists pass key again h k = k
open_key-IsKeyLoaded refused pass key again h k = refused_loads_nothing cannot_create

generate_key-IsKeyLoaded :
    (drawn : Option Bytes) (pass : Pass) (again : Option Loaded)
    → ((key : Bytes) → drawn ≡ some key → length key ≡ 32)
    → IsKeyLoaded again
    → IsKeyLoaded (generate_key drawn pass again)
unfolding generate_key
generate_key-IsKeyLoaded none pass again f k = refused_loads_nothing cannot_generate
generate_key-IsKeyLoaded (some key) pass again f k =
    open_key-IsKeyLoaded pass.opening pass key again (f key refl) k

load_pass-IsKeyLoaded :
    (r : Read) (pass : Pass) (again : Option Loaded)
    → FillsKey pass
    → IsKeyLoaded again
    → IsKeyLoaded (load_pass r pass again)
unfolding load_pass
load_pass-IsKeyLoaded unreadable pass again f k = refused_loads_nothing cannot_read
load_pass-IsKeyLoaded not_exist pass again f k = elim (Bool-cases pass.directory_made) [
  | inl e ↦ rw (if_true _ _ _ e) (generate_key-IsKeyLoaded pass.drawn pass again f k)
  | inr e ↦ rw (if_false _ _ _ e) (refused_loads_nothing cannot_create_directory)
]
load_pass-IsKeyLoaded (contents b) pass again f k = elim (Bool-cases (length b == 32)) [
  | inl e ↦ rw (if_true _ _ _ e) (read_key-IsKeyLoaded b ((==_iff (length b) 32).0 e))
  | inr e ↦ rw (if_false _ _ _ e) (refused_loads_nothing invalid_size)
]

loaded-IsKeyLoaded :
    (passes : List Pass) → All FillsKey passes → IsKeyLoaded (load_or_create_master_key passes)
unfolding load_or_create_master_key IsKeyLoaded
loaded-IsKeyLoaded [] h = λ key e. cc
loaded-IsKeyLoaded (pass ∷ passes) h =
    load_pass-IsKeyLoaded pass.read pass _ h.0 (loaded-IsKeyLoaded passes h.1)

-- Whatever other processes do to the file, a key that LoadOrCreateMasterKey returns has 32 bytes, so
-- that NewSecrets takes it.
pub new_secrets-load_or_create_master_key :
    (passes : List Pass) (key : Bytes) (ciphers : Bytes → Crypto)
    → All FillsKey passes
    → load_or_create_master_key passes ≡ some (ok key)
    → new_secrets key ciphers ≡ ok (ciphers key)
unfolding new_secrets IsKeyLoaded
new_secrets-load_or_create_master_key passes key ciphers h e =
    if_true _ _ _ ((==_iff (length key) 32).1 (loaded-IsKeyLoaded passes h key e))
