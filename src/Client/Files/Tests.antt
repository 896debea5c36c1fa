-- ===== src/Client/Files/Tests.antt =====
-- Whole files of a client of one metadata server and two data nodes.
use mathlib.Core.Bool.{false≢true}
use fstorex.Base.{
  ◌≡◌, ◌≢◌, refl, sym, ap, ◌∙◌, String, Bool, true, false, none, some, [], ◌∷◌, ◌<>◌, All,
  string_eq, nat_eq, inl, map, if◌then◌else◌, ◌==◌, ◌&&◌,
}
use fstorex.Base.Dict.{lookup, insert}
use fstorex.Base.Text.{strip_prefix, trim_prefix, trim_suffix, split, contains_text, has_prefix}
use fstorex.Types.{pos, Replica, FileLocation}
use fstorex.Metadata.Paths.{split_path}
use fstorex.Metadata.Tree.{find, lookup_parts}
use fstorex.Metadata.State.{MetadataServer, status_complete, status_recovering, status_pending}
use fstorex.Metadata.Apply as Apply
use fstorex.Metadata.Apply.{apply_update_size}
use fstorex.Metadata.Machine.{dispatch, apply}
use fstorex.Metadata.Server.{Raft, update_size, get_file_location, message}
use fstorex.DataNode.Bytes.{Bytes, resize}
use fstorex.DataNode.Paths.{resolve_path, clean_rooted, clean_parts, clean_step, rooted}
use fstorex.DataNode.Service.{truncate, get_data}
use fstorex.DataNode.Heartbeat.{extract_leader_addr}
use fstorex.Client.World.{Site, World, returns}
use fstorex.Client.Calls.{
  mds_tries, call_node, ask_node, ask_mds, truncate_replica, file_location, update_size_at,
}
use fstorex.Client.Handle.{on_replicas, first_failure, truncate_all_replicas}
use fstorex.Client.Handle.Reading.{stored, Holds}
use fstorex.Metadata.Machine.Registry.{AreDistinct}
use fstorex.Client.Handle.Replicas.{addr_of}
use fstorex.Client.Samples.{node_at, on_a, on_b, alone, file_f, server, world, net, Holds-known}
use fstorex.Metadata.Server.{Handled, answer, refuse, not_leader, complete_file}
use fstorex.Client.World.{fails}
use fstorex.Client.Calls.{call_mds}
use fstorex.Client.Files.{get_file}
use fstorex.Client.Open.{has_flag, o_trunc, o_excl, for_writing, open_file}
use fstorex.Client.Open.Opening.{handle_of, open_file-opens, open_file-truncates_first}
use fstorex.Client.Files.Downloads.{Keeps, SomeDownloads, get_file-downloads}
use fstorex.Client.Files.Redirects.{call_mds-redirected}
use fstorex.DataNode.Heartbeat.{trim_space, trim_left, trim_right, behind}
use fstorex.Metadata.Apply.{apply_complete_file}

abbrev location : FileLocation
location = record { file_id = "1"; replicas = on_a ∷ on_b ∷ []; status = status_complete }

held : (status : String) → All (Holds (world status) (7 ∷ 8 ∷ 9 ∷ [])) (on_a ∷ on_b ∷ [])
unfolding lookup resolve_path clean_rooted clean_parts clean_step rooted strip_prefix trim_prefix
    split contains_text has_prefix string_eq nat_eq
held status = (
  Holds-known (world status) (7 ∷ 8 ∷ 9 ∷ []) on_a (node_at "/a" (7 ∷ 8 ∷ 9 ∷ [])) "/a/data/1" refl
      refl refl,
  (
    Holds-known (world status) (7 ∷ 8 ∷ 9 ∷ []) on_b (node_at "/b" (7 ∷ 8 ∷ 9 ∷ [])) "/b/data/1"
        refl refl refl,
    tt,
  ),
)

Holds-Keeps : (w : World) (content : Bytes) (r : Replica) → Holds w content r → Keeps w content r
Holds-Keeps w content r holds dn real_path f here resolved found =
    ap stored (sym found) ∙ holds dn here real_path resolved

located :
    ask_mds net "MetadataService.GetFileLocation" "get file location failed: "
      (get_file_location "/f")
      "m:1"
      (world status_complete)
    ≡ returns location
unfolding ask_mds get_file_location lookup Apply.lookup split_path trim_prefix trim_suffix
    strip_prefix split lookup_parts find string_eq nat_eq
located = refl

complete_written : ◌≢◌ {A = String} status_complete status_pending
unfolding string_eq
complete_written p = false≢true (ap (λ s. s == status_pending) p)

downloads : SomeDownloads net (world status_complete) (on_a ∷ on_b ∷ [])
unfolding ask_node get_data lookup resolve_path clean_rooted clean_parts clean_step rooted
    strip_prefix trim_prefix split contains_text has_prefix string_eq nat_eq
downloads = inl (7 ∷ 8 ∷ 9 ∷ [], refl)

get_file-downloads_example :
    get_file net "m:1" "/f" (λ content. none) (world status_complete) ≡ returns (7 ∷ 8 ∷ 9 ∷ [])
get_file-downloads_example =
    get_file-downloads net "m:1" "/f" (λ content. none) (world status_complete) location
      (7 ∷ 8 ∷ 9 ∷ []) located complete_written
      (
        Holds-Keeps (world status_complete) (7 ∷ 8 ∷ 9 ∷ []) on_a (held status_complete).0,
        (Holds-Keeps (world status_complete) (7 ∷ 8 ∷ 9 ∷ []) on_b (held status_complete).1.0, tt),
      )
      downloads refl refl

site_there :
    (status : String)
    → lookup "m:1" (world status).sites ≡ some (record { raft = alone; state = server status })
unfolding lookup string_eq
site_there status = refl

in_tree : (status : String) → Apply.lookup (server status) "/f" ≡ some (file_f status)
unfolding Apply.lookup split_path trim_prefix trim_suffix strip_prefix split lookup_parts find
    string_eq nat_eq
in_tree status = refl

keeps_bytes : has_flag 2 o_trunc ≡ false
unfolding has_flag nat_eq
keeps_bytes = refl

open_file-opens_example : open_file net "m:1" "/f" 2 (world status_complete) ≡ (
  world status_complete,
  if has_flag 2 o_excl
      then fails ("open: file already exists (O_EXCL): " <> "/f")
      else if false
      then fails ("open: is a directory: " <> "/f")
      else if status_complete == status_recovering && for_writing 2
      then fails ("open: file is recovering, write not allowed: " <> "/f")
      else returns (handle_of "m:1" "/f" 2 (file_f status_complete)),
)
open_file-opens_example =
    open_file-opens net "m:1" "/f" 2 (world status_complete)
      (record { raft = alone; state = server status_complete }) (file_f status_complete)
      (site_there status_complete) (λ method. refl) (in_tree status_complete) keeps_bytes

shares : has_flag 0x202 o_excl ≡ false
unfolding has_flag nat_eq
shares = refl

truncates : has_flag 0x202 o_trunc ≡ true
unfolding has_flag nat_eq
truncates = refl

distinct : AreDistinct (map addr_of (on_a ∷ on_b ∷ []))
unfolding string_eq
distinct = (refl, (refl, tt))

cut : (truncate_all_replicas net "m:1" "/f" (pos 0) (world status_recovering)).1 ≡ returns true
unfolding truncate_all_replicas truncate_replica on_replicas first_failure call_node truncate resize
    file_location ask_mds get_file_location lookup insert Apply.lookup split_path trim_prefix
    trim_suffix strip_prefix split lookup_parts find string_eq nat_eq resolve_path clean_rooted
    clean_parts clean_step rooted contains_text has_prefix
cut = refl

refused :
    (update_size_at net "m:1" "/f"
      (pos 0)
      (truncate_all_replicas net "m:1" "/f" (pos 0) (world status_recovering)).0).1
    ≡ fails "raft do failed: refused"
unfolding truncate_all_replicas truncate_replica on_replicas first_failure call_node truncate resize
    file_location ask_mds get_file_location lookup insert Apply.lookup split_path trim_prefix
    trim_suffix strip_prefix split lookup_parts find string_eq nat_eq resolve_path clean_rooted
    clean_parts clean_step rooted contains_text has_prefix update_size_at mds_tries update_size
    apply dispatch apply_update_size message extract_leader_addr behind trim_space trim_left
    trim_right
refused = refl

open_file-truncates_first_example :
    ((open_file net "m:1" "/f" 0x202 (world status_recovering)).1
      ≡ fails ("open: update size failed: " <> "raft do failed: refused"))
    × All (Holds (open_file net "m:1" "/f" 0x202 (world status_recovering)).0 []) (on_a ∷ on_b ∷ [])
open_file-truncates_first_example =
    open_file-truncates_first net "m:1" "/f" 0x202 (world status_recovering)
      (record { raft = alone; state = server status_recovering }) (file_f status_recovering)
      (site_there status_recovering) (λ method. refl) (in_tree status_recovering) (7 ∷ 8 ∷ 9 ∷ [])
      true "raft do failed: refused" shares truncates refl distinct (held status_recovering) cut
      refused

abbrev follower : Site
follower = record { raft = record alone { is_leader = false }; state = server status_complete }

abbrev two_servers : World
two_servers = record (world status_complete) {
  sites = ("m:1", record { raft = alone; state = server status_complete }) ∷ ("m:2", follower) ∷ [];
}

abbrev completing : Raft → MetadataServer → Handled Bool
completing raft = complete_file raft "/f"

abbrev completed : MetadataServer
completed = (complete_file alone "/f" (server status_complete)).0

leader_plain : trim_space "m:1" ≡ "m:1"
unfolding trim_space trim_left trim_right string_eq nat_eq
leader_plain = refl

leader_named : ◌≢◌ {A = String} "m:1" ""
unfolding string_eq
leader_named p = false≢true (ap (λ s. s == "") p)

leader_elsewhere : ◌≢◌ {A = String} "m:1" "m:2"
unfolding string_eq
leader_elsewhere p = false≢true (ap (λ s. s == "m:2") p)

found_follower : lookup "m:2" two_servers.sites ≡ some follower
unfolding lookup string_eq
found_follower = refl

found_leader :
    lookup "m:1" two_servers.sites ≡ some (record { raft = alone; state = server status_complete })
unfolding lookup string_eq
found_leader = refl

sent_on : completing follower.raft follower.state ≡ (follower.state, refuse (not_leader "m:1"))
unfolding complete_file
sent_on = refl

did : completing alone (server status_complete) ≡ (completed, answer true)
unfolding complete_file apply dispatch apply_complete_file Apply.lookup split_path trim_prefix
    trim_suffix strip_prefix split lookup_parts find string_eq nat_eq
did = refl

call_mds-redirected_example :
    ((call_mds net "MetadataService.CompleteFile" completing "m:2" two_servers).1 ≡ returns true)
    × ((q : String)
        → lookup q
            (call_mds net "MetadataService.CompleteFile" completing "m:2" two_servers).0.sites
          ≡ (if "m:1" == q
              then some (record { raft = alone; state = completed })
              else lookup q two_servers.sites))
call_mds-redirected_example =
    call_mds-redirected net "MetadataService.CompleteFile" completing "m:2" "m:1" two_servers
      follower (record { raft = alone; state = server status_complete }) completed true
      found_follower refl sent_on leader_named leader_elsewhere leader_plain found_leader refl did
