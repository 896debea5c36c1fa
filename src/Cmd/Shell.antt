-- ===== src/Cmd/Shell.antt =====
-- What the command line client takes from its system, and how it reports (cmd/fstorex/main.go).
use fstorex.Base.{ℕ, suc, String, ◌<>◌, Bool, Option, List, [], ◌∷◌, map, string_eq}
use fstorex.Base.Text.{decimal}
use fstorex.Types.{ℤ, pos, negsuc, Time}
use fstorex.DataNode.Bytes.{Bytes}
use fstorex.Client.World.{World, Result, returns, fails}
use fstorex.Fuse.Mount.{FuseNode, MountOptions}
use fstorex.Cmd.Lines.{Line, printed, Ended, exit_with, done}

-- What the client takes from its system.
pub record Shell : Type 0 where
  -- `os.ReadFile` and the error of `os.WriteFile`
  pub read_file : String → Result Bytes
  pub write_file : String → Bytes → Option String
  -- the flag set of `put`: whether it has `-overwrite`, and the arguments behind the flags; the exit
  -- code where it ends the program
  pub parse_put : List String → Option (Bool × List String)
  pub parse_code : ℕ
  -- `tabwriter` on rows of cells, and a time in RFC 3339
  pub table : List (List String) → List String
  pub rfc3339 : Time → String
  -- whether `os.Stat` finds a directory, and the errors of go-fuse's mount and unmount
  pub is_mount_point : String → Bool
  pub fs_mount : String → FuseNode → MountOptions → Option String
  pub unmount : String → Option String

abbrev pub Run : Type 0
Run = World × Ended

-- `%d`
abbrev pub shown_ℤ : ℤ → String
shown_ℤ (pos n) = decimal n
shown_ℤ (negsuc n) = "-" <> decimal (suc n)

unfoldable pub lines : List String → List Line
lines = map printed

-- `printUsage`
abbrev pub usage_text : List String
usage_text =
    "FStoreX Client" ∷ "" ∷ "Usage: fstorex -mds=<addr> <command> [args]" ∷ "" ∷ "Commands:"
    ∷ "  mkdir <path>                    Create directory"
    ∷ "  put [-overwrite] <local> <remote> Upload file (-overwrite to overwrite existing)"
    ∷ "  get <remote> <local>            Download file"
    ∷ "  ls [path]                       List directory (default: /)"
    ∷ "  stat <path>                     Show file/directory info"
    ∷ "  rm <path>                       Delete file/directory"
    ∷ "  replicas <path>                 Show file's replica locations"
    ∷ "  nodes                           List registered data nodes"
    ∷ "  gc                              Trigger orphan data garbage collection"
    ∷ "  mount <mountpoint>              Mount FStoreX as local filesystem (FUSE)" ∷ []

-- The end of a command behind the client's result.
unfoldable pub reported : String → Result Bool → List Line → Ended
reported message (returns r) out = done out
reported message (fails text) out = exit_with message text
