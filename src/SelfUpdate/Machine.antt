-- ===== src/SelfUpdate/Machine.antt =====
-- What an update reaches: the releases of the repository, files and archives, as parameters.
use dbctl.Base.{ℕ, List, Text, Result, Exec}

pub record Asset : Type 0 where
  pub name : Text
  pub browser_download_url : Text

pub record Release : Type 0 where
  pub tag_name : Text
  pub assets : List Asset

-- The response to a GET, with the number by which its body is read.
pub record Answer : Type 0 where
  pub status_code : ℕ
  pub status : Text
  pub body : ℕ

pub data EntryType : Type 0 where
  directory regular other : EntryType

pub record Header : Type 0 where
  pub type_flag : EntryType
  pub name : Text

-- `entries` is what the calls of `Next` on the unpacked archive give before `io.EOF`, an error last.
-- `open_new` is `os.OpenFile` with the mode of its file, which `file_mode` reads off `os.Stat`.
pub record Machine (W : Type 0) : Type 0 where
  pub os : Text
  pub arch : Text
  pub executable : Exec W Text
  pub check_url : Text → Result (Unit {0})
  pub get : Text → Exec W Answer
  pub read_all : ℕ → Exec W Text
  pub close_body : ℕ → Exec W Unit
  pub decode_release : Text → Result Release
  pub create_file : Text → Exec W ℕ
  pub open_file : Text → Exec W ℕ
  pub file_mode : Text → Exec W ℕ
  pub open_new : Text → ℕ → Exec W ℕ
  pub copy : ℕ → ℕ → Exec W Unit
  pub close_file : ℕ → Exec W Unit
  pub remove : Text → Exec W Unit
  pub remove_all : Text → Exec W Unit
  pub rename : Text → Text → Exec W Unit
  pub mkdir_all : Text → Exec W Unit
  pub mkdir : Text → Exec W Unit
  pub gunzip : ℕ → Exec W ℕ
  pub entries : ℕ → Exec W (List (Result Header))
