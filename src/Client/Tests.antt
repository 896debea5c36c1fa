-- ===== src/Client/Tests.antt =====
-- The open file of a client of one metadata server and two data nodes.
use fstorex.Base.{
  ℕ, ◌≡◌, refl, length, Bool, true, [], ◌∷◌, All, arith, string_eq, nat_eq, ltb, take, map,
}
use fstorex.Base.Dict.{lookup, insert}
use fstorex.Base.Text.{strip_prefix, trim_prefix, trim_suffix, split, contains_text, has_prefix}
use fstorex.Types.{pos, FileLocation}
use fstorex.Metadata.Paths.{split_path}
use fstorex.Metadata.Tree.{find, put, lookup_parts, modify}
use fstorex.Metadata.State.{status_complete}
use fstorex.Metadata.Apply as Apply
use fstorex.Metadata.Apply.{apply_update_size}
use fstorex.Metadata.Machine.{dispatch, apply}
use fstorex.Metadata.Server.{update_size, get_file_location}
use fstorex.DataNode.Bytes.{Bytes, read_at, overwrite, resize}
use fstorex.DataNode.Paths.{resolve_path, clean_rooted, clean_parts, clean_step, rooted}
use fstorex.DataNode.Service.{range_read, partial_write, truncate}
use fstorex.Client.World.{World, returns}
use fstorex.Client.Calls.{
  mds_tries, call_node, ask_node, ask_mds, range_read_from, partial_write_to, truncate_replica,
  file_location, update_size_at,
}
use fstorex.Client.Handle.{
  write_at as write_handle, read_at as read_handle, FileHandle, ReadOut, on_replicas, failures,
  first_failure, truncate_all_replicas, truncate_handle,
}
use fstorex.Client.Handle.Reading.{Holds, Answers, IsReadOf}
use fstorex.Metadata.Machine.Registry.{AreDistinct}
use fstorex.Client.Handle.Replicas.{addr_of}
use fstorex.Client.Handle.Parallel.{read_at-IsReadOf}
use fstorex.Client.Handle.Session.{
  Made, made_none, made_write, made_cut, write_bytes, cut_to, effects, session-refines,
}
use fstorex.Client.Samples.{node_at, on_a, on_b, world, net, handle, Holds-known}

held : All (Holds (world status_complete) (7 ∷ 8 ∷ 9 ∷ [])) (on_a ∷ on_b ∷ [])
unfolding lookup resolve_path clean_rooted clean_parts clean_step rooted strip_prefix trim_prefix
    split contains_text has_prefix string_eq nat_eq
held = (
  Holds-known (world status_complete) (7 ∷ 8 ∷ 9 ∷ []) on_a (node_at "/a" (7 ∷ 8 ∷ 9 ∷ []))
      "/a/data/1" refl refl refl,
  (
    Holds-known (world status_complete) (7 ∷ 8 ∷ 9 ∷ []) on_b (node_at "/b" (7 ∷ 8 ∷ 9 ∷ []))
        "/b/data/1" refl refl refl,
    tt,
  ),
)

abbrev answer_of : Bytes → ℕ → ℕ → Bytes × Bool
answer_of content off len =
    (take len (read_at content off len), ltb (length (read_at content off len)) len)

always_a : (turn off len : ℕ) → Answers net (world status_complete) turn off len on_a
unfolding range_read_from ask_node range_read lookup resolve_path clean_rooted clean_parts
    clean_step rooted strip_prefix trim_prefix split contains_text has_prefix string_eq nat_eq
always_a turn off len = (answer_of (7 ∷ 8 ∷ 9 ∷ []) off len, refl)

read_at-IsReadOf_example :
    (out : ReadOut) × (read_handle net (world status_complete) handle (0 ∷ 0 ∷ 0 ∷ 0 ∷ []) (pos 1)
      ≡ returns out)
    × IsReadOf (7 ∷ 8 ∷ 9 ∷ []) 1 (0 ∷ 0 ∷ 0 ∷ 0 ∷ []) out
read_at-IsReadOf_example =
    read_at-IsReadOf net (world status_complete) handle (7 ∷ 8 ∷ 9 ∷ []) 0 on_a (0 ∷ 0 ∷ 0 ∷ 0 ∷ [])
      1 held refl always_a (omega arith)

abbrev written_world : World
written_world = (write_handle net handle (1 ∷ 2 ∷ 3 ∷ []) (pos 1) (world status_complete)).0.0

abbrev written_handle : FileHandle
written_handle = (write_handle net handle (1 ∷ 2 ∷ 3 ∷ []) (pos 1) (world status_complete)).0.1

wrote : (write_handle net handle (1 ∷ 2 ∷ 3 ∷ []) (pos 1) (world status_complete)).1 ≡ returns 3
unfolding write_handle on_replicas failures partial_write_to call_node partial_write lookup insert
    overwrite resolve_path clean_rooted clean_parts clean_step rooted strip_prefix trim_prefix split
    contains_text has_prefix string_eq nat_eq
wrote = refl

abbrev location : FileLocation
location = record { file_id = "1"; replicas = on_a ∷ on_b ∷ []; status = status_complete }

located : file_location net "m:1" "/f" written_world ≡ returns location
unfolding write_handle on_replicas failures partial_write_to call_node partial_write lookup insert
    overwrite resolve_path clean_rooted clean_parts clean_step rooted strip_prefix trim_prefix split
    contains_text has_prefix string_eq nat_eq update_size_at mds_tries update_size apply dispatch
    apply_update_size Apply.lookup split_path trim_suffix lookup_parts find put modify file_location
    ask_mds get_file_location
located = refl

cut : (truncate_handle net written_handle (pos 2) written_world).1 ≡ returns true
unfolding write_handle on_replicas failures partial_write_to call_node partial_write lookup insert
    overwrite resolve_path clean_rooted clean_parts clean_step rooted strip_prefix trim_prefix split
    contains_text has_prefix string_eq nat_eq update_size_at mds_tries update_size apply dispatch
    apply_update_size Apply.lookup split_path trim_suffix lookup_parts find put modify file_location
    ask_mds get_file_location truncate_handle truncate_all_replicas truncate_replica truncate resize
    first_failure
cut = refl

abbrev cut_world : World
cut_world = (truncate_handle net written_handle (pos 2) written_world).0.0

always_a_cut : (turn off len : ℕ) → Answers net cut_world turn off len on_a
unfolding write_handle on_replicas failures partial_write_to call_node partial_write lookup insert
    overwrite resolve_path clean_rooted clean_parts clean_step rooted strip_prefix trim_prefix split
    contains_text has_prefix string_eq nat_eq update_size_at mds_tries update_size apply dispatch
    apply_update_size Apply.lookup split_path trim_suffix lookup_parts find put modify file_location
    ask_mds get_file_location truncate_handle truncate_all_replicas truncate_replica truncate resize
    first_failure range_read_from ask_node range_read
always_a_cut turn off len = (answer_of (7 ∷ 1 ∷ []) off len, refl)

kept : location.replicas ≡ written_handle.replicas
unfolding write_handle on_replicas failures partial_write_to call_node partial_write lookup insert
    overwrite resolve_path clean_rooted clean_parts clean_step rooted strip_prefix trim_prefix split
    contains_text has_prefix string_eq nat_eq
kept = refl

at_file :
    file_location net written_handle.client.mds_addr written_handle.path written_world
    ≡ returns location
unfolding write_handle on_replicas failures partial_write_to call_node partial_write lookup insert
    overwrite resolve_path clean_rooted clean_parts clean_step rooted strip_prefix trim_prefix split
    contains_text has_prefix string_eq nat_eq
at_file = located

changed :
    Made
      (world status_complete)
      handle
      cut_world
      (truncate_handle net written_handle (pos 2) written_world).0.1
      (write_bytes 1 (1 ∷ 2 ∷ 3 ∷ []) ∷ cut_to 2 ∷ [])
changed = made_write net 1 3 (1 ∷ 2 ∷ 3 ∷ []) wrote (
    made_cut {w = written_world} {fh = written_handle} net 2 location true at_file kept cut
      made_none)

distinct : AreDistinct (map addr_of handle.replicas)
unfolding string_eq
distinct = (refl, (refl, tt))

session-refines_example :
    (out : ReadOut) × (read_handle net cut_world
        (truncate_handle net written_handle (pos 2) written_world).0.1
        (0 ∷ 0 ∷ 0 ∷ [])
        (pos 0)
      ≡ returns out)
    × IsReadOf
        (effects (write_bytes 1 (1 ∷ 2 ∷ 3 ∷ []) ∷ cut_to 2 ∷ []) (7 ∷ 8 ∷ 9 ∷ []))
        0
        (0 ∷ 0 ∷ 0 ∷ [])
        out
session-refines_example =
    session-refines (7 ∷ 8 ∷ 9 ∷ []) net 0 on_a (0 ∷ 0 ∷ 0 ∷ []) 0 changed distinct held refl
      always_a_cut (omega arith)
