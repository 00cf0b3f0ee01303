-- ===== src/Security/MasterKey.antt =====
-- internal/security/security.go: LoadOrCreateMasterKey, on a file that other processes may write too.
-- The calls of `os` and rand.Read are given by their answers.
use olcrtc_panel_lite.Common.{
  Bool, Option, none, some, List, [], ◌∷◌, ◌==◌, if◌then◌else◌, length, Result, ok, err,
}
use olcrtc_panel_lite.Security.Crypto.{Bytes}

pub data MasterKeyError : Type 0 where
  invalid_size cannot_read cannot_create_directory cannot_generate cannot_create cannot_write
        cannot_protect :
      MasterKeyError

-- what os.ReadFile answers: os.ErrNotExist and the other errors apart
pub data Read : Type 0 where
  contents : Bytes → Read
  not_exist unreadable : Read

-- what os.OpenFile with O_EXCL answers
pub data Opening : Type 0 where
  opened exists refused : Opening

-- the answers of the calls of one pass
pub record Pass : Type 0 where
  pub read : Read
  pub directory_made : Bool
  pub drawn : Option Bytes
  pub opening : Opening
  pub written : Bool
  pub protected : Bool

abbrev pub Loaded : Type 0
Loaded = Result MasterKeyError Bytes

-- from the open file on
unfoldable pub store_key : Pass → Bytes → Loaded
store_key pass key =
    if pass.written
    then (if pass.protected then ok key else err cannot_protect)
    else err cannot_write

-- where there is no file; `again` is the call that follows os.ErrExist
unfoldable pub open_key : Opening → Pass → Bytes → Option Loaded → Option Loaded
open_key opened pass key again = some (store_key pass key)
open_key exists pass key again = again
open_key refused pass key again = some (err cannot_create)

unfoldable pub generate_key : Option Bytes → Pass → Option Loaded → Option Loaded
generate_key none pass again = some (err cannot_generate)
generate_key (some key) pass again = open_key pass.opening pass key again

unfoldable pub load_pass : Read → Pass → Option Loaded → Option Loaded
load_pass (contents b) pass again = some (if length b == 32 then ok b else err invalid_size)
load_pass unreadable pass again = some (err cannot_read)
load_pass not_exist pass again =
    if pass.directory_made
    then generate_key pass.drawn pass again
    else some (err cannot_create_directory)

-- LoadOrCreateMasterKey on the passes that its recursion makes; `none` where they end first
unfoldable pub load_or_create_master_key : List Pass → Option Loaded
load_or_create_master_key [] = none
load_or_create_master_key (pass ∷ passes) =
    load_pass pass.read pass (load_or_create_master_key passes)
