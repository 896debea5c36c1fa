-- ===== src/DataNode/Disk.antt =====
-- The state of a data node (internal/datanode/datanode.go): the files of its disk, by their real
-- paths. The lock and the logger are no part of it, and a handler holds the lock while it runs.
use fstorex.Base.{ℕ, String, Bool, false}
use fstorex.Base.Dict.{Dict}
use fstorex.Types.{Time}
use fstorex.DataNode.Bytes.{Bytes}

pub record File : Type 0 where
  pub content : Bytes
  pub mod_time : Time

abbrev pub Disk : Type 0
Disk = Dict String File

pub record DataNode : Type 0 where
  pub data_dir : String
  pub disk : Disk

-- The system calls that fail in a run of a handler for another reason than a missing file, among
-- them those that meet a directory; `kept` is how much of its bytes a failing write stores.
pub record Faults : Type 0 where
  pub mkdir : Bool
  pub open_file : Bool
  pub buffer : Bool
  pub read : Bool
  pub write : Bool
  pub kept : ℕ
  pub rename : Bool
  pub remove : Bool
  pub truncate : Bool
  pub sync : Bool
  pub walk : Bool

abbrev pub no_faults : Faults
no_faults = record {
  mkdir = false;
  open_file = false;
  buffer = false;
  read = false;
  write = false;
  kept = 0;
  rename = false;
  remove = false;
  truncate = false;
  sync = false;
  walk = false;
}

-- The errors of the handlers, one constructor for each message.
pub data DataError : Type 0 where
  invalid_path : String → DataError
  create_parent_failed : DataError
  write_failed : DataError
  rename_failed : DataError
  data_not_found : String → DataError
  read_failed : DataError
  delete_failed : DataError
  open_failed : DataError
  truncate_failed : DataError
  sync_failed : DataError
  walk_failed : DataError
  source_unreachable : DataError
  source_read_failed : DataError → DataError

-- What a handler answers; `panicked` where it panics instead.
pub data Reply {ℓ} (A : Type ℓ) : Type ℓ where
  ok : A → Reply A
  err : DataError → Reply A
  panicked : Reply A
