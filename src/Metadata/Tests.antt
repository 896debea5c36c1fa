-- ===== src/Metadata/Tests.antt =====
-- Runs of the metadata server's commands on a small tree, and its theorems there.
use fstorex.Base.{
  ◌≡◌, ◌≢◌, refl, String, true, false, none, some, List, [], ◌∷◌, ◌++◌, arith, string_eq, nat_eq,
  subst,
}
use text.Mathlib.TextLemmas.{cons≢nil}
use fstorex.Types.{pos, overwrite_if_exists}
use fstorex.Metadata.Paths.{split_path}
use fstorex.Metadata.Paths.Split.{IsName}
use fstorex.Metadata.Tree.{Entry, entry, attrs, children, empty, bind, find, put, walk_dirs, modify}
use fstorex.Metadata.Tree.Modify.{attrs_at}
use fstorex.Metadata.Tree.Frame.{is_prefix}
use fstorex.Metadata.State.{
  CommandPayload, no_payload, MetadataServer, new_metadata_server, root_attrs, op_mkdir,
  op_create_file, op_rename,
}
use fstorex.Metadata.Apply.{
  split_last, lookup, new_file, apply_mkdir, apply_create_file, apply_delete,
}
use fstorex.Metadata.Apply.Outcomes.{MayCreate, created_file, create_file-lookup, delete-lookup}
use fstorex.Metadata.Apply.Trees.{IsTree}
use fstorex.Metadata.Apply.Untouched.{names-keep_others}
use fstorex.Metadata.Rename.{meets_source, rename_parts, apply_rename}
use fstorex.Metadata.Rename.Outcome.{rename-moves, rename-leaves_source, rename-frame}
use fstorex.Metadata.Rename.Cycle.{meets_source_lem}
use fstorex.Metadata.Machine.{LogEntry, dispatch, apply, replay}
use fstorex.Metadata.Machine.Errors.{apply-IsAtomic}
use fstorex.Metadata.Machine.Shape.{replay-IsTree}

split_path_runs : split_path "//a///b c/" ≡ "a" ∷ "b c" ∷ []
unfolding split_path string_eq nat_eq
split_path_runs = refl

abbrev start : MetadataServer
start = new_metadata_server 1 1

abbrev mkdir_a : CommandPayload
mkdir_a = record no_payload { path = "/a"; file_id = "1" }

abbrev create_f : CommandPayload
create_f = record no_payload { path = "/a/f"; size = pos 5; file_id = "2" }

abbrev rename_f : CommandPayload
rename_f = record no_payload { path = "/a/f"; dst_path = "/g" }

abbrev rename_a : CommandPayload
rename_a = record no_payload { path = "/a"; dst_path = "/a/f" }

-- The tree with the directory `a`, and with the file `f` in it.
abbrev file_f : Entry
file_f = new_file "f" create_f 3 "2" 3

abbrev with_f : MetadataServer
with_f = record start {
  root = entry (root_attrs 1 2) (
      bind "a"
        (entry
          (record {
            name = "a";
            is_dir = true;
            size = pos 0;
            mode = 0o755;
            created_at = 2;
            mod_time = 3;
            status = "";
            file_id = "1";
            replicas = [];
          })
          (bind "f" file_f empty))
        empty);
}

abbrev log : List LogEntry
log =
    record { op = op_mkdir; payload = some mkdir_a; now = 2 }
    ∷ record { op = op_create_file; payload = some create_f; now = 3 }
    ∷ []

replay_runs : replay log start ≡ with_f
unfolding replay apply dispatch apply_mkdir apply_create_file split_last split_path find put
    walk_dirs modify string_eq nat_eq
replay_runs = refl

rename_ok : (apply_rename rename_f 4 with_f).1 ≡ none
unfolding apply_rename rename_parts split_last split_path find walk_dirs string_eq nat_eq
rename_ok = refl

IsName-f : IsName "f"
IsName-f = record { not_empty = λ e. cons≢nil e; no_slash = (omega arith, tt) }

abbrev cyclic : LogEntry
cyclic = record { op = op_rename; payload = some rename_a; now = 4 }

cyclic_fails : (apply cyclic with_f).1 ≢ none
unfolding apply dispatch apply_rename rename_parts split_last split_path find walk_dirs string_eq
    nat_eq
cyclic_fails h = cc

apply-IsAtomic_example : (apply cyclic with_f).0 ≡ with_f
apply-IsAtomic_example = apply-IsAtomic cyclic with_f cyclic_fails

start-IsTree : IsTree start.root
start-IsTree = record { root_is_dir = refl; shape = (λ leaf. cc, tt) }

with_f-IsTree : IsTree with_f.root
with_f-IsTree =
    subst (λ (s : MetadataServer). IsTree s.root) replay_runs (replay-IsTree log start start-IsTree)

replay-IsTree_example : IsTree (replay log start).root
replay-IsTree_example = replay-IsTree log start start-IsTree

rename-moves_example :
    (dir : List String) × (name : String) × (e : Entry) × (split_last (split_path "/g")
      ≡ some (dir, name))
    × (lookup with_f "/a/f" ≡ some e)
    × (lookup (apply_rename rename_f 4 with_f).0 "/g"
        ≡ some (entry (record (attrs e) { name = name; mod_time = 4 }) (children e)))
rename-moves_example = rename-moves rename_f 4 with_f refl rename_ok

paths_differ : split_path "/a/f" ≢ split_path "/g"
unfolding split_path string_eq nat_eq
paths_differ h = ground arith

rename-leaves_source_example : lookup (apply_rename rename_f 4 with_f).0 "/a/f" ≡ none
rename-leaves_source_example = rename-leaves_source rename_f 4 with_f refl rename_ok paths_differ

not_below_f : is_prefix (split_path "/a/f") ("b" ∷ "c" ∷ []) ≡ false
unfolding is_prefix split_path string_eq nat_eq
not_below_f = refl

not_below_g : is_prefix (split_path "/g") ("b" ∷ "c" ∷ []) ≡ false
unfolding is_prefix split_path string_eq nat_eq
not_below_g = refl

no_parent_of_f : (n : String) → split_path "/a/f" ≢ ("b" ∷ "c" ∷ []) ++ n ∷ []
unfolding split_path string_eq nat_eq
no_parent_of_f n h = ground arith

no_parent_of_g : (n : String) → split_path "/g" ≢ ("b" ∷ "c" ∷ []) ++ n ∷ []
unfolding split_path string_eq nat_eq
no_parent_of_g n h = ground arith

rename-frame_example :
    attrs_at ("b" ∷ "c" ∷ []) (apply_rename rename_f 4 with_f).0.root
    ≡ attrs_at ("b" ∷ "c" ∷ []) with_f.root
rename-frame_example =
    rename-frame rename_f 4 with_f refl rename_ok ("b" ∷ "c" ∷ []) not_below_f not_below_g
      no_parent_of_f no_parent_of_g

walk_a :
    walk_dirs ("a" ∷ []) with_f.root
    ≡ some (
        entry
          (record {
            name = "a";
            is_dir = true;
            size = pos 0;
            mode = 0o755;
            created_at = 2;
            mod_time = 3;
            status = "";
            file_id = "1";
            replicas = [];
          })
          (bind "f" file_f empty))
unfolding walk_dirs find string_eq
walk_a = refl

meets_source_lem_example :
    meets_source (some ("a" ∷ [])) ("a" ∷ "b" ∷ []) with_f.root
    ≡ is_prefix ("a" ∷ []) ("a" ∷ "b" ∷ [])
meets_source_lem_example = meets_source_lem ("a" ∷ []) ("a" ∷ "b" ∷ []) with_f.root walk_a

abbrev overwrite_f : CommandPayload
overwrite_f = record create_f { create_mode = overwrite_if_exists; file_id = "9" }

overwrite_ok : (apply_create_file overwrite_f 5 with_f).1 ≡ none
unfolding apply_create_file split_last split_path find walk_dirs string_eq nat_eq
overwrite_ok = refl

create_file-lookup_example :
    MayCreate overwrite_f 5 with_f (lookup with_f "/a/f")
    × ((dir : List String) × (name : String) × (split_last (split_path "/a/f") ≡ some (dir, name))
        × (lookup (apply_create_file overwrite_f 5 with_f).0 "/a/f"
            ≡ some (created_file overwrite_f 5 with_f name (lookup with_f "/a/f"))))
create_file-lookup_example = create_file-lookup overwrite_f 5 with_f overwrite_ok

mkdir_ok : (apply_mkdir mkdir_a 5 with_f).1 ≡ none
unfolding apply_mkdir split_last split_path find walk_dirs string_eq nat_eq
mkdir_ok = refl

delete_ok : (apply_delete mkdir_a 5 with_f).1 ≡ none
unfolding apply_delete split_last split_path find walk_dirs string_eq nat_eq
delete_ok = refl

delete-lookup_example :
    ((e : Entry) × (lookup with_f "/a" ≡ some e))
    × (lookup (apply_delete mkdir_a 5 with_f).0 "/a" ≡ none)
delete-lookup_example = delete-lookup mkdir_a 5 with_f delete_ok

abbrev mkdir_b : CommandPayload
mkdir_b = record no_payload { path = "/b"; file_id = "3" }

not_below_b : is_prefix (split_path "/b") ("a" ∷ []) ≡ false
unfolding is_prefix split_path string_eq nat_eq
not_below_b = refl

a_not_above_b : (n : String) → split_path "/b" ≢ "a" ∷ n ∷ []
unfolding split_path string_eq nat_eq
a_not_above_b n same = ground arith

names-keep_others_example :
    (attrs_at ("a" ∷ []) (apply_mkdir mkdir_b 6 with_f).0.root ≡ attrs_at ("a" ∷ []) with_f.root)
    × (attrs_at ("a" ∷ []) (apply_create_file mkdir_b 6 with_f).0.root
        ≡ attrs_at ("a" ∷ []) with_f.root)
    × (attrs_at ("a" ∷ []) (apply_delete mkdir_b 6 with_f).0.root ≡ attrs_at ("a" ∷ []) with_f.root)
names-keep_others_example = names-keep_others mkdir_b 6 with_f ("a" ∷ []) not_below_b a_not_above_b
