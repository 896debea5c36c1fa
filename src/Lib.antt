-- ===== src/Lib.antt =====
-- A model of fstorex, a distributed file system, in which a metadata server keeps a directory tree
-- in a replicated log, and data nodes keep the bytes of the files.
--
-- Types.antt has the records of internal/types/types.go. Base.antt and its children have the text
-- and map functions of Go that the program uses, and lemmas.
--
-- Metadata models internal/metadata. Paths is splitPath and joinPath; Tree is `entry`, its children
-- maps and the walks over them; State is `MetadataServer` and the commands of the log. Apply has one
-- function for each command of apply.go, Rename has applyRename, and Machine the `Apply` of
-- state_machine.go that dispatches to them. Snapshot is Snapshot and Restore, Server the handlers of
-- mds.go, and Gc the cycle of gc.go: the health check that removes silent nodes through the log, the
-- FileIDs of the tree, and the collection of every registered node. A walk's pointer into the tree is
-- the path that it has walked, so a write through it is `modify` at that path, and equality of pointers is equality of
-- paths. A command takes what `time.Now` returns to it as an argument, and returns the state that it
-- leaves together with its error.
--
-- DataNode models internal/datanode/datanode.go. Paths is resolvePath; Disk is the node's files, from
-- real paths to bytes; Bytes is what reads, writes and truncations do to the bytes of a file; Service
-- has one function for each handler, Replicate has ReplicateFile, Heartbeat extractLeaderAddr, and
-- Life the creation of a node, its heartbeats at the servers of a world, and Stop. A
-- handler takes the faults of its run, that is which of its system calls fail for another reason than
-- a missing file. The loop of a replication runs on fuel, one for each test of its condition; a source
-- that has the size asked for needs one for each chunk of 1 MiB and one for the last test.
--
-- Metadata.Listing is ListDir with its sort, and Metadata.Replicator the repair of files with too few
-- replicas (replicator.go): the scan of the tree runs on fuel, one for each entry of the tree, and
-- the loop of a cycle on the number of turns that start before its deadline.
--
-- Client models internal/client. World is what a client can reach, the metadata servers with their
-- Raft nodes and the data nodes, each under its address; a `Net` says how each call comes out. Calls
-- has the remote calls with their redirects, Handle the `FileHandle` of file_handle.go, Files and Open
-- the operations on paths of client.go. A client's operation returns the world that
-- it leaves and a result, whose error is the text that the source builds.
--
-- Fuse has the helpers of internal/fuse/node.go, Fuse.Nodes the callbacks of inodes and of open
-- files, which give what they hand over to go-fuse, and Fuse.Mount the Mount of filesystem.go.
--
-- Cmd models the programs under cmd. Cli is the switch over the commands of cmd/fstorex/main.go, with
-- what it writes and its exit code; what it takes from its system, the local files, the parser of
-- flags and the layout of tables among it, is the record of Shell. Peers and Servers are the flag of
-- the peers and the start of the two servers (cmd/fstorex-mds/main.go, cmd/fstorex-dn/main.go), each
-- error of the system an argument, and Servers.Shutdown is their shutdown, as a step relation.
--
-- The components meet where one calls another's handlers: the server's handlers submit commands that
-- Machine applies, a collection calls the handlers of a data node, a replication those of another
-- node, a heartbeat those of the servers, a client those of servers and data nodes, and a callback of
-- the FUSE layer or a command line the client.
--
-- The Raft node is a library that is not part of the repository: Server takes it as a parameter, and
-- `Commits`, `Applies` and `Refuses` are what is relied on where a command must have been applied, or
-- refused. JSON stands outside: a log entry and a snapshot are what their bytes decode to, and what
-- bytes leave in a nil slice is an argument of a download. Each handler runs under its lock, so that
-- the model has no interleaving within one; a replication and the collection of one node are modelled
-- with no other write to their files in between, and a repair and a cycle of the collector with
-- arguments for what the log does between their phases. Calls that a client makes at the same time
-- go to different nodes, or only read, and stand one behind the other. Log lines are left out, but
-- for those of the command line client, and so are timers: what happens at a tick is a function, and
-- how often it ticks is not said. Offsets and sizes that the model has as natural numbers are taken to
-- stay below 2 ^ 63, so that no sum of them wraps round.
--
-- Not modelled: the Raft node and go-fuse, which are libraries; the loops that accept connections,
-- but for what they do to a shutdown; and the numbers of replicas, deletions and the like that only
-- log lines tell.
pub mod Base
pub mod Types
pub mod Metadata
pub mod DataNode
pub mod Client
pub mod Cmd
pub mod Fuse
