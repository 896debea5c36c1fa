-- ===== src/Cmd/Cli/Honest.antt =====
-- What the exit code of the client tells (cmd/fstorex/main.go).
use fstorex.Base.{
  String, ◌≡◌, ◌≢◌, refl, Bool, false, List, [], ◌∷◌, arith, ◌==◌, string_eq, if_both, option_both,
  not,
}
use fstorex.Client.World.{World, Net, Result, returns, fails}
use fstorex.Client.Files.{
  mkdir_path, get_file, list_dir_at, stat_at, get_replicas, list_data_nodes_at,
}
use fstorex.Types.{FileInfo}
use fstorex.Fuse.Mount.{mount}
use fstorex.Cmd.Lines.{Ended, tells_error, exit_with, usage, done}
use fstorex.Cmd.Shell.{Shell, Run, lines, reported}
use fstorex.Cmd.Cli.{
  ls_path, listed_infos, run_mkdir, run_put_parsed, run_put, run_get, run_ls, run_stat, run_rm,
  run_replicas, run_nodes, run_gc, run_mount, run_command, main,
}

-- An end with the exit code 0 tells no error, and one with the exit code 1 tells something.
data IsHonest (e : Ended) : Type 0 where
  honest : (e.code ≡ 0 → tells_error e.out ≡ false) → (e.code ≡ 1 → e.out ≢ []) → IsHonest e

exit-IsHonest : (message text : String) → IsHonest (exit_with message text)
unfolding exit_with
exit-IsHonest message text = honest (λ h. absurd (omega (arith, h))) (λ h p. cc)

usage-IsHonest : (line : String) → IsHonest (usage line)
unfolding usage
usage-IsHonest line = honest (λ h. absurd (omega (arith, h))) (λ h p. cc)

tells-lines : (texts : List String) → tells_error (lines texts) ≡ false
unfolding lines
tells-lines [] = refl
tells-lines (t ∷ texts) = tells-lines texts

lines-IsHonest : (texts : List String) → IsHonest (done (lines texts))
unfolding done
lines-IsHonest texts = honest (λ h. tells-lines texts) (λ h. absurd (omega (arith, h)))

reported-IsHonest :
    (message : String) (result : Result Bool) (texts : List String)
    → IsHonest (reported message result (lines texts))
unfolding reported
reported-IsHonest message (returns r) texts = lines-IsHonest texts
reported-IsHonest message (fails text) texts = exit-IsHonest message text

listed-IsHonest : (sh : Shell) (infos : List FileInfo) → IsHonest (done (listed_infos sh infos))
listed-IsHonest sh [] = lines-IsHonest ("(empty)" ∷ [])
listed-IsHonest sh (info ∷ infos) = lines-IsHonest _

result_both {ℓ} :
    {A : Type 0} {B : Type 0} (P : B → Type ℓ) (r : Result A) {s : A → B} {n : String → B}
    → ((a : A) → P (s a))
    → ((text : String) → P (n text))
    → P (elim r [ returns a ↦ s a | fails text ↦ n text ])
result_both P (returns a) h k = h a
result_both P (fails text) h k = k text

module _ (sh : Shell) (net : Net) (mds : String) (w : World) (plain : sh.parse_code ≢ 1) where
  mkdir-IsHonest : (args : List String) → IsHonest (run_mkdir net mds args w).1
  unfolding run_mkdir
  mkdir-IsHonest [] = usage-IsHonest _
  mkdir-IsHonest (path ∷ rest) = reported-IsHonest _ (mkdir_path net mds path w).1 _

  put_parsed-IsHonest :
      (overwrite : Bool) (args : List String)
      → IsHonest (run_put_parsed sh net mds overwrite args w).1
  unfolding run_put_parsed
  put_parsed-IsHonest overwrite [] = usage-IsHonest _
  put_parsed-IsHonest overwrite (local ∷ []) = usage-IsHonest _
  put_parsed-IsHonest overwrite (local ∷ remote ∷ rest) = reported-IsHonest _ _ _

  put-IsHonest : (args : List String) → IsHonest (run_put sh net mds args w).1
  unfolding run_put
  put-IsHonest args =
      option_both (λ (r : Run). IsHonest r.1) (sh.parse_put args)
        (λ ended. honest (λ h. refl) (λ h. absurd (plain h)))
        (λ (overwrite, rest) parsed. put_parsed-IsHonest overwrite rest)

  get-IsHonest : (args : List String) → IsHonest (run_get sh net mds args w).1
  unfolding run_get
  get-IsHonest [] = usage-IsHonest _
  get-IsHonest (remote ∷ []) = usage-IsHonest _
  get-IsHonest (remote ∷ local ∷ rest) =
      result_both IsHonest (get_file net mds remote (sh.write_file local) w)
        (λ content. lines-IsHonest _) (λ text. exit-IsHonest _ text)

  ls-IsHonest : (args : List String) → IsHonest (run_ls sh net mds args w).1
  unfolding run_ls
  ls-IsHonest args =
      result_both IsHonest (list_dir_at net mds (ls_path args) w)
        (λ infos. listed-IsHonest sh infos) (λ text. exit-IsHonest _ text)

  stat-IsHonest : (args : List String) → IsHonest (run_stat sh net mds args w).1
  unfolding run_stat
  stat-IsHonest [] = usage-IsHonest _
  stat-IsHonest (path ∷ rest) =
      result_both IsHonest (stat_at net mds path w) (λ info. lines-IsHonest _)
        (λ text. exit-IsHonest _ text)

  rm-IsHonest : (args : List String) → IsHonest (run_rm net mds args w).1
  unfolding run_rm
  rm-IsHonest [] = usage-IsHonest _
  rm-IsHonest (path ∷ rest) = reported-IsHonest _ _ _

  replicas-IsHonest : (args : List String) → IsHonest (run_replicas sh net mds args w).1
  unfolding run_replicas
  replicas-IsHonest [] = usage-IsHonest _
  replicas-IsHonest (path ∷ rest) =
      result_both IsHonest (get_replicas net mds path w) (λ replicas. lines-IsHonest _)
        (λ text. exit-IsHonest _ text)

  nodes-IsHonest : IsHonest (run_nodes net mds w).1
  unfolding run_nodes
  nodes-IsHonest =
      result_both IsHonest (list_data_nodes_at net mds w) (λ nodes. lines-IsHonest _)
        (λ text. exit-IsHonest _ text)

  gc-IsHonest : IsHonest (run_gc net mds w).1
  unfolding run_gc
  gc-IsHonest = reported-IsHonest _ _ _

  mount-IsHonest : (args : List String) → IsHonest (run_mount sh mds args w).1
  unfolding run_mount done
  mount-IsHonest [] = usage-IsHonest _
  mount-IsHonest (point ∷ rest) =
      if_both IsHonest (not (sh.is_mount_point point))
        (λ missing. honest (λ h. absurd (omega (arith, h))) (λ h p. cc))
        (λ there.
          option_both IsHonest (mount sh.fs_mount mds point)
            (λ mounted.
              option_both IsHonest (sh.unmount point)
                (λ fine. honest (λ h. refl) (λ h. absurd (omega (arith, h))))
                (λ text stuck. honest (λ h. absurd (omega (arith, h))) (λ h p. cc)))
            (λ text failed. exit-IsHonest _ text))

  command-IsHonest :
      (cmd : String) (args : List String) → IsHonest (run_command sh net mds cmd args w).1
  unfolding run_command
  command-IsHonest cmd args =
      if_both Q (cmd == "mkdir") (λ _. mkdir-IsHonest args)
        λ _.
          if_both Q (cmd == "put") (λ _. put-IsHonest args)
            λ _.
              if_both Q (cmd == "get") (λ _. get-IsHonest args)
                λ _.
                  if_both Q (cmd == "ls") (λ _. ls-IsHonest args)
                    λ _.
                      if_both Q (cmd == "stat") (λ _. stat-IsHonest args)
                        λ _.
                          if_both Q (cmd == "rm") (λ _. rm-IsHonest args)
                            λ _.
                              if_both Q (cmd == "replicas") (λ _. replicas-IsHonest args)
                                λ _.
                                  if_both Q (cmd == "nodes") (λ _. nodes-IsHonest)
                                    λ _.
                                      if_both Q (cmd == "gc") (λ _. gc-IsHonest)
                                        λ _.
                                          if_both Q (cmd == "mount") (λ _. mount-IsHonest args)
                                            λ _. honest (λ h. absurd (omega (arith, h))) (λ h p. cc)
    where
      Q : Run → Type 0
      Q r = IsHonest r.1

  any-IsHonest : (args : List String) → IsHonest (main sh net mds args w).1
  unfolding main lines
  any-IsHonest [] = honest (λ h. absurd (omega (arith, h))) (λ h p. cc)
  any-IsHonest (cmd ∷ args) = command-IsHonest cmd args

  -- Whatever the arguments are and however the calls come out, `main` tells no error where its exit
  -- code is 0, and writes something where its exit code is 1, as long as the parser of flags does
  -- not end the program with 1.
  pub main_honest :
      (args : List String)
      → ((main sh net mds args w).1.code ≡ 0 → tells_error (main sh net mds args w).1.out ≡ false)
        × ((main sh net mds args w).1.code ≡ 1 → (main sh net mds args w).1.out ≢ [])
  main_honest args = elim (any-IsHonest args) [ honest success failure ↦ (success, failure) ]
