-- ===== src/Cmd/Servers/Starts.antt =====
-- How the servers start or exit (cmd/fstorex-mds/main.go and cmd/fstorex-dn/main.go).
use fstorex.Base.{
  String, ◌≡◌, refl, true, none, some, List, [], ◌∷◌, arith, option_both, All, Option-cases, inl,
  inr,
}
use fstorex.Types.{Time}
use fstorex.Metadata.State.{MetadataServer, new_metadata_server}
use fstorex.DataNode.Life.{Daemon, new_data_node}
use fstorex.Cmd.Lines.{exit_with, tells_error}
use fstorex.Cmd.Peers.{IsPeer, parse_peers-IsPeer}
use fstorex.Cmd.Servers.{
  Host, Start, exits, serves, MdsFlags, DnFlags, raft_config, start_metadata, start_mds, start_dn,
  is_error,
}

-- A start either ends with the exit code 1 and tells an error, or what it keeps is as promised, and
-- it serves exactly the given services, all registered, at the given address, where it listens.
abbrev pub IsStarted : {A : Type 0} → Host → List String → String → (A → Type 0) → Start A → Type 0
IsStarted host names addr P (exits e) = (e.code ≡ 1) × (tells_error e.out ≡ true)
IsStarted host names addr P (serves a names' addr' out) =
    P a
    × (names' ≡ names)
    × (addr' ≡ addr)
    × All (λ name. host.register name ≡ none) names'
    × (host.listen addr' ≡ none)

exits-IsStarted :
    {A : Type 0} (host : Host) (names : List String) (addr : String) (P : A → Type 0)
    (message text : String)
    → IsStarted host names addr P (exits (exit_with message text))
unfolding exit_with
exits-IsStarted host names addr P message text = (refl, refl)

module _ (host : Host) (flags : MdsFlags) (created modified : Time) where
  -- What a metadata server keeps.
  abbrev pub IsFresh : MetadataServer → Type 0
  IsFresh mds =
      (mds ≡ new_metadata_server created modified)
      × (host.init_raft (raft_config flags) ≡ none)
      × All (IsPeer flags.id) (raft_config flags).peers

  abbrev IsMdsStart : Start MetadataServer → Type 0
  IsMdsStart = IsStarted host ("Server" ∷ "MetadataService" ∷ []) flags.id IsFresh

  raft-started :
      (start_metadata host (raft_config flags) created modified).1 ≡ none
      → IsFresh (start_metadata host (raft_config flags) created modified).0
  unfolding start_metadata
  raft-started fine = (refl, ground (arith, fine), (parse_peers-IsPeer flags.id flags.peers).0)

  -- The program of a metadata server either exits with the code 1 and tells an error, or it serves
  -- the Raft service and the metadata service at its identifier, with the fresh state, a Raft node
  -- that started without an error, and peers of which none is the server itself or an empty text.
  pub start_mds-IsStarted :
      IsStarted host
        ("Server" ∷ "MetadataService" ∷ [])
        flags.id
        IsFresh
        (start_mds host flags created modified)
  unfolding start_mds
  start_mds-IsStarted =
      option_both IsMdsStart (start_metadata host (raft_config flags) created modified).1
        (λ fine.
          option_both IsMdsStart (host.register "Server")
            (λ raft.
              option_both IsMdsStart (host.register "MetadataService")
                (λ service.
                  option_both IsMdsStart (host.listen flags.id)
                    (λ listens. (raft-started fine, refl, refl, (raft, (service, tt)), listens))
                    (λ text bad. failed "failed to listen" text))
                (λ text bad. failed "failed to register metadata rpc service" text))
            (λ text bad. failed "failed to register raft rpc service" text))
        (λ text bad. failed "failed to create metadata server" text)
    where
      failed : (message text : String) → IsMdsStart (exits (exit_with message text))
      failed = exits-IsStarted host ("Server" ∷ "MetadataService" ∷ []) flags.id IsFresh

module _ (host : Host) (flags : DnFlags) where
  -- What a data node keeps.
  abbrev pub IsNew : Daemon → Type 0
  IsNew d =
      (d.addr ≡ flags.addr)
      × (d.mds_addr ≡ flags.mds_addr)
      × (d.stop_closed ≡ d.stop_done)
      × (host.make_dir flags.data_dir ≡ none)

  abbrev IsDnStart : Start Daemon → Type 0
  IsDnStart = IsStarted host ("DataService" ∷ []) flags.addr IsNew

  made-IsNew :
      (d : Daemon)
      → new_data_node (is_error (host.make_dir flags.data_dir)) flags.mds_addr flags.addr ≡ some d
      → IsNew d
  unfolding new_data_node
  made-IsNew d made = elim (Option-cases (host.make_dir flags.data_dir)) [
    | inl fine ↦
        (ground (arith, made, fine), ground (arith, made, fine), ground (arith, made, fine), fine)
    | inr (text, bad) ↦ ground (arith, made, bad)
  ]

  -- The program of a data node either exits with the code 1 and tells an error, or it serves the
  -- data service at its address, with a data directory that it has made.
  pub start_dn-IsStarted :
      IsStarted host ("DataService" ∷ []) flags.addr IsNew (start_dn host flags)
  unfolding start_dn
  start_dn-IsStarted =
      option_both IsDnStart
        (new_data_node (is_error (host.make_dir flags.data_dir)) flags.mds_addr flags.addr)
        (λ gone. failed "failed to create data node" _)
        (λ d made.
          option_both IsDnStart (host.register "DataService")
            (λ service.
              option_both IsDnStart (host.listen flags.addr)
                (λ listens. (made-IsNew d made, refl, refl, (service, tt), listens))
                (λ text bad. failed "failed to listen" text))
            (λ text bad. failed "failed to register RPC" text))
    where
      failed : (message text : String) → IsDnStart (exits (exit_with message text))
      failed = exits-IsStarted host ("DataService" ∷ []) flags.addr IsNew
