-- ===== src/Fuse/Mount.antt =====
-- The mount of the file system (internal/fuse/filesystem.go). `fs.Mount` of go-fuse is the
-- system's; the callbacks that it is given are those of Fuse/Nodes.antt.
use fstorex.Base.{String, Option, List, [], ◌∷◌}
use fstorex.Types.{Time}

-- `fuseNode`, the node of a path at a server.
pub record FuseNode : Type 0 where
  pub mds_addr : String
  pub path : String

-- `fs.Options`, as far as `Mount` fills them.
pub record MountOptions : Type 0 where
  pub attr_timeout : Time
  pub entry_timeout : Time
  pub name : String
  pub options : List String

-- `defaultTimeout`, one second.
abbrev pub default_timeout : Time
default_timeout = 1_000_000_000

abbrev pub mount_options : MountOptions
mount_options = record {
  attr_timeout = default_timeout;
  entry_timeout = default_timeout;
  name = "fstorex";
  options = "default_permissions" ∷ [];
}

-- `Mount`, with the error of `fs.Mount` if it returns one.
abbrev pub mount :
    (String → FuseNode → MountOptions → Option String) → String → String → Option String
mount fs_mount mds_addr mount_point =
    fs_mount mount_point (record { mds_addr = mds_addr; path = "/" }) mount_options
