-- ===== src/Cmd/Cli.antt =====
-- The command line client (cmd/fstorex/main.go). The local file system, the parser of flags, the
-- layout of tables and times, and the mount are the system's.
pub mod Honest
pub mod Reading
pub mod Mkdir
use fstorex.Base.{
  ℕ, zero, suc, ◌+◌, String, ◌<>◌, Bool, true, false, ◌||◌, not, Option, none, some, List, [], ◌∷◌,
  ◌++◌, length, map, ◌==◌, string_eq, if◌then◌else◌,
}
use fstorex.Base.Text.{decimal}
use fstorex.Types.{
  ℤ, pos, negsuc, Time, Replica, FileInfo, CreateMode, create_if_not_exist, overwrite_if_exists,
}
use fstorex.DataNode.Bytes.{Bytes}
use fstorex.Client.World.{World, Net, Result, returns, fails}
use fstorex.Client.Files.{
  mkdir_path, put_file, get_file, list_dir_at, stat_at, delete_path, get_replicas,
  list_data_nodes_at, trigger_gc_at,
}
use fstorex.Fuse.Mount.{FuseNode, MountOptions, mount}
use fstorex.Cmd.Lines.{
  Line, printed, logged_info, logged_error, complained, Ended, exit_with, usage, done,
}
use fstorex.Cmd.Shell.{Shell, Run, shown_ℤ, lines, usage_text, reported}

-- `mkdir`; the arguments of a command are those behind its name.
unfoldable pub run_mkdir : Net → String → List String → World → Run
run_mkdir net mds [] w = (w, usage "Usage: client mkdir <path>")
run_mkdir net mds (path ∷ rest) w =
    let (after, result) = mkdir_path net mds path w in
    (after, reported "mkdir failed" result (lines (("✓ Directory created: " <> path) ∷ [])))

abbrev pub put_mode : Bool → CreateMode
put_mode overwrite = if overwrite then overwrite_if_exists else create_if_not_exist

-- `put` behind the parser of its flags.
unfoldable pub run_put_parsed : Shell → Net → String → Bool → List String → World → Run
run_put_parsed sh net mds overwrite [] w =
    (w, usage "Usage: client put [-overwrite] <local> <remote>")
run_put_parsed sh net mds overwrite (local ∷ []) w =
    (w, usage "Usage: client put [-overwrite] <local> <remote>")
run_put_parsed sh net mds overwrite (local ∷ remote ∷ rest) w =
    let (after, result) = put_file net mds (sh.read_file local) remote (put_mode overwrite) w in
    (
      after,
      reported "put failed" result (lines (("✓ File uploaded: " <> local <> " → " <> remote) ∷ [])),
    )

-- `put`
unfoldable pub run_put : Shell → Net → String → List String → World → Run
run_put sh net mds args w = elim (sh.parse_put args) [
  | none ↦ (w, record { out = []; code = sh.parse_code })
  | some (overwrite, rest) ↦ run_put_parsed sh net mds overwrite rest w
]

-- `get`
unfoldable pub run_get : Shell → Net → String → List String → World → Run
run_get sh net mds [] w = (w, usage "Usage: client get <remote> <local>")
run_get sh net mds (remote ∷ []) w = (w, usage "Usage: client get <remote> <local>")
run_get sh net mds (remote ∷ local ∷ rest) w = (
  w,
  elim (get_file net mds remote (sh.write_file local) w) [
    | fails text ↦ exit_with "get failed" text
    | returns content ↦ done (lines (("✓ File downloaded: " <> remote <> " → " <> local) ∷ []))
  ],
)

abbrev pub info_row : Shell → FileInfo → List String
info_row sh info =
    info.name
    ∷ shown_ℤ info.size
    ∷ sh.rfc3339 info.mod_time
    ∷ (if info.is_dir then "DIR" else "FILE")
    ∷ []

abbrev pub ls_path : List String → String
ls_path [] = "/"
ls_path (path ∷ rest) = path

-- `ls` behind the client's answer.
abbrev pub listed_infos : Shell → List FileInfo → List Line
listed_infos sh [] = lines ("(empty)" ∷ [])
listed_infos sh (info ∷ infos) =
    lines
      (sh.table (("NAME" ∷ "SIZE" ∷ "MODIFIED" ∷ "TYPE" ∷ []) ∷ map (info_row sh) (info ∷ infos)))

-- `ls`
unfoldable pub run_ls : Shell → Net → String → List String → World → Run
run_ls sh net mds args w = (
  w,
  elim (list_dir_at net mds (ls_path args) w) [
    | fails text ↦ exit_with "ls failed" text
    | returns infos ↦ done (listed_infos sh infos)
  ],
)

-- `stat`
unfoldable pub run_stat : Shell → Net → String → List String → World → Run
run_stat sh net mds [] w = (w, usage "Usage: client stat <path>")
run_stat sh net mds (path ∷ rest) w = (
  w,
  elim (stat_at net mds path w) [
    | fails text ↦ exit_with "stat failed" text
    | returns info ↦ done (
        lines (
          ("Name:      " <> info.name)
          ∷ ("Path:      " <> info.path)
          ∷ ("Type:      " <> (if info.is_dir then "Directory" else "File"))
          ∷ ("Size:      " <> shown_ℤ info.size <> " bytes")
          ∷ ("Created:   " <> sh.rfc3339 info.created_at)
          ∷ ("Modified:  " <> sh.rfc3339 info.mod_time)
          ∷ []))
  ],
)

-- `rm`
unfoldable pub run_rm : Net → String → List String → World → Run
run_rm net mds [] w = (w, usage "Usage: client rm <path>")
run_rm net mds (path ∷ rest) w =
    let (after, result) = delete_path net mds path w in
    (after, reported "rm failed" result (lines (("✓ Path deleted: " <> path) ∷ [])))

-- The rows of `replicas`, numbered on from a number.
unfoldable pub replica_rows : ℕ → List Replica → List (List String)
replica_rows i [] = []
replica_rows i (r ∷ rs) = (decimal (i + 1) ∷ r.addr ∷ r.remote_path ∷ []) ∷ replica_rows (i + 1) rs

-- `replicas`
unfoldable pub run_replicas : Shell → Net → String → List String → World → Run
run_replicas sh net mds [] w = (w, usage "Usage: client replicas <path>")
run_replicas sh net mds (path ∷ rest) w = (
  w,
  elim (get_replicas net mds path w) [
    | fails text ↦ exit_with "replicas failed" text
    | returns replicas ↦ done (
        lines (
          ("Replicas for " <> path <> " (" <> decimal (length replicas) <> " total):")
          ∷ sh.table (("#" ∷ "DATA NODE" ∷ "REMOTE PATH" ∷ []) ∷ replica_rows 0 replicas)))
  ],
)

-- `nodes`
unfoldable pub run_nodes : Net → String → World → Run
run_nodes net mds w = (
  w,
  elim (list_data_nodes_at net mds w) [
    | fails text ↦ exit_with "list nodes failed" text
    | returns nodes ↦
        done (
          lines (("Data nodes (" <> decimal (length nodes) <> "):") ∷ map (λ n. "  - " <> n) nodes))
  ],
)

-- `gc`
unfoldable pub run_gc : Net → String → World → Run
run_gc net mds w =
    let (after, result) = trigger_gc_at net mds w in
    (
      after,
      reported "trigger GC failed" result
          (lines ("✓ GC triggered in background (check MDS logs for results)" ∷ [])),
    )

-- `mount`; what is done to the mounted files while it waits for a signal is not the command's.
unfoldable pub run_mount : Shell → String → List String → World → Run
run_mount sh mds [] w = (w, usage "Usage: fstorex -mds=<addr> mount <mountpoint>")
run_mount sh mds (point ∷ rest) w = (
  w,
  if not (sh.is_mount_point point)
      then record {
        out =
            complained ("Error: mount point " <> point <> " does not exist or is not a directory")
            ∷ [];
        code = 1;
      }
      else elim (mount sh.fs_mount mds point) [
        | some text ↦ exit_with "mount failed" text
        | none ↦
            let waited =
              logged_info "fuse mounted"
              ∷ logged_info "FStoreX mounted"
              ∷ logged_info "Press Ctrl+C to unmount"
              ∷ logged_info "received shutdown signal, unmounting..."
              ∷ logged_info "unmounting"
              ∷ [] in
            elim (sh.unmount point) [
              | some text ↦ record {
                out = waited ++ logged_error "unmount failed" text ∷ [];
                code = 1;
              }
              | none ↦ done (waited ++ logged_info "unmounted successfully" ∷ [])
            ]
      ],
)

-- The switch over the command.
unfoldable pub run_command : Shell → Net → String → String → List String → World → Run
run_command sh net mds cmd args w =
    if cmd == "mkdir"
    then run_mkdir net mds args w
    else if cmd == "put"
    then run_put sh net mds args w
    else if cmd == "get"
    then run_get sh net mds args w
    else if cmd == "ls"
    then run_ls sh net mds args w
    else if cmd == "stat"
    then run_stat sh net mds args w
    else if cmd == "rm"
    then run_rm net mds args w
    else if cmd == "replicas"
    then run_replicas sh net mds args w
    else if cmd == "nodes"
    then run_nodes net mds w
    else if cmd == "gc"
    then run_gc net mds w
    else if cmd == "mount"
    then run_mount sh mds args w
    else (
      w,
      record {
        out = printed ("Unknown command: " <> cmd) ∷ printed "" ∷ lines usage_text;
        code = 1;
      },
    )

-- `main`, on the arguments behind its own flags.
unfoldable pub main : Shell → Net → String → List String → World → Run
main sh net mds [] w = (w, record { out = lines usage_text; code = 1 })
main sh net mds (cmd ∷ args) w = run_command sh net mds cmd args w
