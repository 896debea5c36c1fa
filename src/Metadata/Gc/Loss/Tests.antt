-- ===== src/Metadata/Gc/Loss/Tests.antt =====
-- A file that is overwritten before a collection.
use fstorex.Base.{
  ◌≡◌, refl, ◌<>◌, some, [], ◌∷◌, All, arith, string_eq, nat_eq, ap, ◌∙◌, sym, ◌==◌, none, List,
  true,
}
use mathlib.Core.Bool.{false≢true}
use fstorex.Base.Text.{strip_prefix, split, trim_prefix, trim_suffix}
use fstorex.Base.Dict
use fstorex.Base.Dict.{Dict}
use fstorex.Types.{pos, Replica, CreateFileArgs, overwrite_if_exists}
use fstorex.Metadata.Paths.{split_path}
use fstorex.Metadata.Tree.{find, put, walk_dirs, modify, lookup_parts}
use fstorex.Metadata.Apply.{lookup, split_last, apply_create_file}
use fstorex.Metadata.Machine.{dispatch, apply}
use fstorex.Metadata.Gc.{collect_file_ids, garbage_collect_node}
use fstorex.Metadata.Gc.Orphans.{FileOf}
use fstorex.Metadata.Server.{
  Raft, answer, create_file, select_data_nodes, start_index, path_hash, select_from,
}
use fstorex.Metadata.Server.Creation.{Commits, IsPendingAt}
use fstorex.Metadata.Gc.Loss.{overwritten-loses_data}
use fstorex.DataNode.Disk.{no_faults}
use fstorex.Metadata.Gc.Samples.{
  file_f, home_of_nine, node, only_file, plain_nine, stored, stored_there, with_f-IsTree, with_node,
}

-- `/f` is overwritten, and takes the FileID 9 for its replicas.
abbrev committing : Raft
committing = record {
  is_leader = true;
  leader = "m:1";
  propose = λ p mds.
      let applied = apply (record { op = p.op; payload = some p; now = 7 }) mds in
      (applied.0, elim applied.1 [ none ↦ none | some e ↦ some "refused" ]);
}

committing-Commits : Commits committing 7
committing-Commits p mds made = (ground (arith, made), refl)

abbrev overwrite : CreateFileArgs
overwrite = record { path = "/f"; size = pos 1; create_mode = overwrite_if_exists }

abbrev on_nine : List Replica
on_nine = record { addr = "a:1"; remote_path = "/data/9" } ∷ []

overwritten : (create_file committing (some "9") overwrite with_node).1 ≡ answer on_nine
unfolding create_file select_data_nodes start_index path_hash select_from string_eq nat_eq apply
    dispatch apply_create_file split_last split_path find put walk_dirs modify split strip_prefix
    trim_prefix trim_suffix
overwritten = refl

nine_fresh : ¬ FileOf with_node.root "9"
unfolding string_eq
nine_fresh (ps, e, here, file, same) =
    false≢true (ap (λ s. s == "9") (sym (only_file ps e here file) ∙ same))

old_there : lookup with_node "/f" ≡ some file_f
unfolding lookup lookup_parts split_path find string_eq nat_eq
old_there = refl

overwritten-loses_data_example :
    IsPendingAt "/f" on_nine (create_file committing (some "9") overwrite with_node).0
    × All (λ (r : Replica). r.remote_path ≡ "/data/" <> "9") on_nine
    × (Dict.lookup
          ("/d" <> ("/data/" <> "9"))
          (garbage_collect_node
            (collect_file_ids (create_file committing (some "9") overwrite with_node).0.root)
            90_000_000_000
            (some no_faults)
            (λ path. some no_faults)
            node).disk
        ≡ none)
overwritten-loses_data_example =
    overwritten-loses_data committing 7 committing-Commits overwrite "9" with_node file_f on_nine
      node stored no_faults no_faults 90_000_000_000 (λ path. some no_faults) old_there
      with_f-IsTree.shape nine_fresh overwritten stored_there (omega arith) home_of_nine plain_nine
      refl refl refl
