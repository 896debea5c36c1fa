-- ===== src/DataNode/Tests.antt =====
-- Runs of the data node's handlers on a small disk, and its theorems there.
use fstorex.Base.{
  ℕ, String, ◌≡◌, ◌≢◌, refl, ap, ◌==◌, true, none, some, [], ◌∷◌, arith, string_eq, nat_eq,
}
use mathlib.Core.Bool.{false≢true}
use fstorex.Base.Text.{strip_prefix, trim_prefix, has_prefix, contains_text, split}
use fstorex.Base.Dict.{lookup, insert}
use fstorex.Types.{pos}
use fstorex.DataNode.Paths.{clean_step, clean_parts, rooted, clean_rooted, resolve_path}
use fstorex.DataNode.Disk.{File, DataNode, no_faults, ok}
use fstorex.DataNode.Service.{
  StoreArgs, temporary, store_data, delete_data, range_read, partial_write, truncate, on_disk,
}
use fstorex.DataNode.Service.Store.{store_data-IsAtomic, found_after, succeeded}
use fstorex.DataNode.Service.Ranges.{
  Reads, byte_after, byte_resized, write_args, truncate_args, partial_write-Reads, truncate-Reads,
}
use fstorex.DataNode.Replicate.{ReplicateFileArgs, replicate_file}
use fstorex.DataNode.Replicate.Copies.{replicate_file-copies, replicate_file-diverges}

abbrev old_file : File
old_file = record { content = 7 ∷ 8 ∷ 9 ∷ []; mod_time = 1 }

abbrev node : DataNode
node = record { data_dir = "/d"; disk = ("/d/data/1", old_file) ∷ [] }

abbrev empty_node : DataNode
empty_node = record { data_dir = "/e"; disk = [] }

abbrev store_args : StoreArgs
store_args = record { path = "/data/1"; content = 4 ∷ 5 ∷ [] }

resolved : resolve_path "/d" "/data/1" ≡ some "/d/data/1"
unfolding resolve_path clean_rooted rooted clean_parts clean_step string_eq nat_eq split
    contains_text has_prefix strip_prefix trim_prefix
resolved = refl

resolved_on_target : resolve_path "/e" "/data/1" ≡ some "/e/data/1"
unfolding resolve_path clean_rooted rooted clean_parts clean_step string_eq nat_eq split
    contains_text has_prefix strip_prefix trim_prefix
resolved_on_target = refl

resolved_otherwise : resolve_path "/d" "data/x/.././1" ≡ resolve_path "/d" "/data/1"
unfolding resolve_path clean_rooted rooted clean_parts clean_step string_eq nat_eq split
    contains_text has_prefix strip_prefix trim_prefix
resolved_otherwise = refl

traversal_escapes_nothing : resolve_path "/d" "/../../etc/x" ≡ some "/d/etc/x"
unfolding resolve_path clean_rooted rooted clean_parts clean_step string_eq nat_eq split
    contains_text has_prefix strip_prefix trim_prefix
traversal_escapes_nothing = refl

file_there : lookup "/d/data/1" node.disk ≡ some old_file
unfolding lookup string_eq
file_there = refl

stored_ok : (store_data no_faults 2 store_args node).1 ≡ ok true
unfolding store_data
stored_ok = ground (arith, resolved)

deleted_ok : (delete_data no_faults "/data/1" node).1 ≡ ok true
unfolding delete_data
deleted_ok = ground (arith, resolved, file_there)

wrote_ok : (partial_write no_faults 2 (write_args "/data/1" 2 (4 ∷ 5 ∷ [])) node).1 ≡ ok true
unfolding partial_write
wrote_ok = ground (arith, resolved)

cut_ok : (truncate no_faults 2 (truncate_args "/data/1" 2) node).1 ≡ ok true
unfolding truncate lookup string_eq insert resolve_path clean_rooted rooted clean_parts clean_step
    nat_eq split contains_text has_prefix strip_prefix trim_prefix
cut_ok = refl

other_path : temporary "/d/data/1" ≢ "/d/data/1"
unfolding string_eq
other_path p = false≢true (ap (λ s. s == "/d/data/1") p)

another_path : ◌≢◌ {A = String} "/d/data/1" "/d/data/2"
unfolding string_eq
another_path p = false≢true (ap (λ s. s == "/d/data/2") p)

partial_write-Reads_example :
    Reads
      (partial_write no_faults 2 (write_args "/data/1" 2 (4 ∷ 5 ∷ [])) node).0
      "/data/1"
      (byte_after (7 ∷ 8 ∷ 9 ∷ []) 2 (4 ∷ 5 ∷ []))
      4
unfolding lookup string_eq
partial_write-Reads_example =
    partial_write-Reads no_faults 2 "/data/1" "/d/data/1" 2 (4 ∷ 5 ∷ []) node resolved wrote_ok

truncate-Reads_example :
    Reads
      (truncate no_faults 2 (truncate_args "/data/1" 2) node).0
      "/data/1"
      (byte_resized (7 ∷ 8 ∷ 9 ∷ []) 2)
      2
unfolding lookup string_eq
truncate-Reads_example = truncate-Reads no_faults 2 "/data/1" "/d/data/1" 2 node resolved cut_ok

store_data-IsAtomic_example :
    lookup "/d/data/1" (store_data no_faults 2 store_args node).0.disk
    ≡ found_after "/d/data/1"
        (record { content = 4 ∷ 5 ∷ []; mod_time = 2 })
        (succeeded (store_data no_faults 2 store_args node).1)
        node.disk
        "/d/data/1"
store_data-IsAtomic_example =
    store_data-IsAtomic no_faults 2 store_args node "/d/data/1" resolved "/d/data/1" other_path

abbrev pull : ℕ → ReplicateFileArgs
pull size = record {
  source_remote_path = "/data/1";
  target_remote_path = "/data/1";
  file_size = pos size;
}

replicate_file-copies_example :
    replicate_file 2 (some (λ args. range_read no_faults args node)) no_faults 3 (pull 2) empty_node
    ≡ some (
      on_disk empty_node (insert "/e/data/1" (record { content = 7 ∷ 8 ∷ []; mod_time = 3 }) []),
      ok true,
    )
replicate_file-copies_example =
    replicate_file-copies node empty_node 3 "/data/1" "/d/data/1" "/data/1" "/e/data/1" old_file 2
      resolved file_there resolved_on_target 2 (omega arith) (omega arith)

replicate_file-diverges_example :
    replicate_file 1000
      (some (λ args. range_read no_faults args node))
      no_faults
      3
      (pull 4)
      empty_node
    ≡ none
replicate_file-diverges_example =
    replicate_file-diverges node empty_node 3 "/data/1" "/d/data/1" "/data/1" "/e/data/1" old_file 4
      resolved file_there resolved_on_target 1000 (omega arith)
