-- ===== src/Types.antt =====
-- The data that the components share (internal/types/types.go). A time is a number of
-- nanoseconds; an `int64` is the integer that it stands for.
use fstorex.Base.{ℕ, suc, ◌+◌, ◌-◌, ◌^◌, ltb, if◌then◌else◌, String, Bool, true, false, List}

-- `negsuc n` is -(n + 1).
pub data ℤ : Type 0 where
  pos : ℕ → ℤ
  negsuc : ℕ → ℤ

abbrev pub is_negative : ℤ → Bool
is_negative (pos n) = false
is_negative (negsuc n) = true

abbrev pub pos_part : ℤ → ℕ
pos_part (pos n) = n
pos_part (negsuc n) = 0

abbrev pub neg_part : ℤ → ℕ
neg_part (pos n) = 0
neg_part (negsuc n) = suc n

abbrev pub ltb_ℤ : ℤ → ℤ → Bool
ltb_ℤ a b = ltb (pos_part a + neg_part b) (pos_part b + neg_part a)

-- What the bits of a sum of two `int64` that are not negative stand for.
abbrev pub int64 : ℕ → ℤ
int64 n = if ltb n (2 ^ 63) then pos n else negsuc (2 ^ 64 - n - 1)

abbrev pub Time : Type 0
Time = ℕ

pub record Replica : Type 0 where
  pub addr : String
  pub remote_path : String

pub record FileInfo : Type 0 where
  pub name : String
  pub path : String
  pub is_dir : Bool
  pub size : ℤ
  pub mode : ℕ
  pub created_at : Time
  pub mod_time : Time
  pub file_id : String

pub record FileLocation : Type 0 where
  pub file_id : String
  pub replicas : List Replica
  pub status : String

pub record NodeFile : Type 0 where
  pub path : String
  pub mod_time : Time

-- A `uint32`: the two constants, and the value `n + 2`, which has no name.
pub data CreateMode : Type 0 where
  create_if_not_exist overwrite_if_exists : CreateMode
  other_mode : ℕ → CreateMode

pub record CreateFileArgs : Type 0 where
  pub path : String
  pub size : ℤ
  pub create_mode : CreateMode

pub record DeleteReply : Type 0 where
  pub replicas : List Replica
  pub is_dir : Bool

pub record RenameArgs : Type 0 where
  pub src_path : String
  pub dst_path : String

pub record UpdateSizeArgs : Type 0 where
  pub path : String
  pub size : ℤ

pub record SyncArgs : Type 0 where
  pub path : String
