-- ===== src/Cmd/Cli/Reading.antt =====
-- The commands that only read (cmd/fstorex/main.go).
use fstorex.Base.{String, ◌≡◌, ◌≢◌, refl, List, [], ◌∷◌, arith, string_eq}
use fstorex.Client.World.{World, Net}
use fstorex.Cmd.Shell.{Shell}
use fstorex.Cmd.Cli.{
  run_get, run_ls, run_stat, run_replicas, run_nodes, run_mount, run_command, main,
}

module _ (sh : Shell) (net : Net) (mds : String) (w : World) where
  get-keeps : (args : List String) → (run_get sh net mds args w).0 ≡ w
  unfolding run_get
  get-keeps [] = refl
  get-keeps (remote ∷ []) = refl
  get-keeps (remote ∷ local ∷ rest) = refl

  stat-keeps : (args : List String) → (run_stat sh net mds args w).0 ≡ w
  unfolding run_stat
  stat-keeps [] = refl
  stat-keeps (path ∷ rest) = refl

  replicas-keeps : (args : List String) → (run_replicas sh net mds args w).0 ≡ w
  unfolding run_replicas
  replicas-keeps [] = refl
  replicas-keeps (path ∷ rest) = refl

  mount-keeps : (args : List String) → (run_mount sh mds args w).0 ≡ w
  unfolding run_mount
  mount-keeps [] = refl
  mount-keeps (point ∷ rest) = refl

  -- A command other than `mkdir`, `put`, `rm` and `gc` leaves every server and data node as it was,
  -- whatever its arguments are.
  pub main-keeps :
      (cmd : String) (args : List String)
      → cmd ≢ "mkdir"
      → cmd ≢ "put"
      → cmd ≢ "rm"
      → cmd ≢ "gc"
      → (main sh net mds (cmd ∷ args) w).0 ≡ w
  unfolding main run_command run_ls run_nodes
  main-keeps cmd args no_mkdir no_put no_rm no_gc = ground (
    arith,
    no_mkdir,
    no_put,
    no_rm,
    no_gc,
    get-keeps args,
    stat-keeps args,
    replicas-keeps args,
    mount-keeps args,
  )
