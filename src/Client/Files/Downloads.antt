-- ===== src/Client/Files/Downloads.antt =====
-- The download of a file, from one replica after the other.
use fstorex.Base.{
  ℕ, String, ◌<>◌, ◌≡◌, ◌≢◌, refl, ap, Option, none, some, List, [], ◌∷◌, arith, length, string_eq,
  All, Option-cases, inl, inr, ◌⊎◌,
}
use fstorex.Base.Text.{decimal}
use fstorex.Base.Dict.{lookup}
use fstorex.Types.{Replica, FileLocation}
use fstorex.Metadata.State.{status_pending}
use fstorex.Metadata.Server.{get_file_location}
use fstorex.DataNode.Bytes.{Bytes}
use fstorex.DataNode.Paths.{resolve_path}
use fstorex.DataNode.Disk.{File, DataNode, Faults, Reply, ok, err, panicked}
use fstorex.DataNode.Service.{get_data}
use fstorex.Client.World.{
  World, Net, NodeContact, no_dial, lost_reply, served, Result, returns, fails, Result-cases,
}
use fstorex.Client.Calls.{ask_node, ask_mds}
use fstorex.Client.Handle.{shown}
use fstorex.Client.Files.{download_from, get_file}

-- A call that reads from a data node and succeeds has run its handler there.
record Asked {ℓ} (A : Type ℓ) (w : World) (addr : String) (handler : Faults → DataNode → Reply A)
    (a : A) : Type ℓ where
  dn : DataNode
  faults : Faults
  found : lookup addr w.nodes ≡ some dn
  replied : handler faults dn ≡ ok a

module _ {ℓ} {A : Type ℓ} (net : Net) (what : String) (turn : ℕ) (addr : String)
    (handler : Faults → DataNode → Reply A) (w : World) (a : A)
    (worked : ask_node net what turn addr handler w ≡ returns a) where
  by_reply :
      (dn : DataNode) (f : Faults) (reply : Reply A)
      → lookup addr w.nodes ≡ some dn
      → net.node turn addr ≡ served f
      → handler f dn ≡ reply
      → Asked A w addr handler a
  unfolding ask_node
  by_reply dn f (ok b) here called replied = record {
    dn = dn;
    faults = f;
    found = here;
    replied = ground (arith, here, called, replied, worked);
  }
  by_reply dn f (err e) here called replied = ground (arith, here, called, replied, worked)
  by_reply dn f panicked here called replied = ground (arith, here, called, replied, worked)

  by_contact :
      (dn : DataNode) (c : NodeContact)
      → lookup addr w.nodes ≡ some dn
      → net.node turn addr ≡ c
      → Asked A w addr handler a
  unfolding ask_node
  by_contact dn no_dial here called = ground (arith, here, called, worked)
  by_contact dn (lost_reply f) here called = ground (arith, here, called, worked)
  by_contact dn (served f) here called = by_reply dn f (handler f dn) here called refl

  ask_node-Asked : Asked A w addr handler a
  unfolding ask_node
  ask_node-Asked = elim (Option-cases (lookup addr w.nodes)) [
    | inl gone ↦ ground (arith, gone, worked)
    | inr (dn, here) ↦ by_contact dn (net.node turn addr) here refl
  ]

-- A replica that can be reached holds these bytes, or no file.
abbrev pub Keeps : World → Bytes → Replica → Type 0
Keeps w content r =
    (dn : DataNode) (real_path : String) (file : File)
    → lookup r.addr w.nodes ≡ some dn
    → resolve_path dn.data_dir r.remote_path ≡ some real_path
    → lookup real_path dn.disk ≡ some file
    → file.content ≡ content

abbrev pub download : Net → Replica → World → Result Bytes
download net r w = ask_node net "" 0 r.addr (λ f. get_data f r.remote_path) w

-- Some replica answers the call for the whole file.
abbrev pub SomeDownloads : Net → World → List Replica → Type 0
SomeDownloads net w [] = ⊥
SomeDownloads net w (r ∷ rs) =
    ((bytes : Bytes) × (download net r w ≡ returns bytes)) ⊎ SomeDownloads net w rs

get_data-file :
    (f : Faults) (path : String) (dn : DataNode) (bytes content : Bytes)
    → ((real_path : String) (file : File)
        → resolve_path dn.data_dir path ≡ some real_path
        → lookup real_path dn.disk ≡ some file
        → file.content ≡ content)
    → get_data f path dn ≡ ok bytes
    → bytes ≡ content
unfolding get_data
get_data-file f path dn bytes content keeps got =
    elim (Option-cases (resolve_path dn.data_dir path)) [
      | inl outside ↦ ground (arith, got, outside)
      | inr (real_path, here) ↦ elim (Option-cases (lookup real_path dn.disk)) [
        | inl gone ↦ ground (arith, got, here, gone)
        | inr (file, there) ↦ ground (arith, got, here, there, keeps real_path file here there)
      ]
    ]

download-Keeps :
    (net : Net) (r : Replica) (w : World) (bytes content : Bytes)
    → Keeps w content r
    → download net r w ≡ returns bytes
    → bytes ≡ content
download-Keeps net r w bytes content keeps got =
    let asked = ask_node-Asked net "" 0 r.addr (λ f. get_data f r.remote_path) w bytes got in
    get_data-file asked.faults r.remote_path asked.dn bytes content
      (λ real_path file here there. keeps asked.dn real_path file asked.found here there)
      asked.replied

-- What the loop makes of the first answer.
abbrev answered : Net → ℕ → Bytes → Option String → Result Bytes
answered net replicas content last_err = elim (net.received content) [
  | some bytes ↦ returns bytes
  | none ↦ fails ("all " <> decimal replicas <> " replicas failed, last error: " <> shown last_err)
]

download_from-answered :
    (net : Net) (w : World) (content : Bytes) (replicas : ℕ) (last_err : Option String)
    (rs : List Replica)
    → All (Keeps w content) rs
    → SomeDownloads net w rs
    → (last : Option String) × (download_from net w replicas last_err rs
        ≡ answered net replicas content last)
unfolding download_from
download_from-answered net w content replicas last_err [] keeps some_answers = absurd some_answers
download_from-answered net w content replicas last_err (r ∷ rs) keeps some_answers =
    elim (Result-cases (download net r w)) [
      | inl (bytes, got) ↦ (
        last_err,
        rw (got, download_from)
            (ap (λ b. answered net replicas b last_err)
              (download-Keeps net r w bytes content keeps.0 got)),
      )
      | inr (text, failed) ↦ elim some_answers [
        | inl (bytes, got) ↦ ground (arith, failed, got)
        | inr later ↦
            rw (failed, download_from)
              (download_from-answered net w content replicas (some text) rs keeps.1 later)
      ]
    ]

module _ (net : Net) (mds_addr path : String) (save : Bytes → Option String) (w : World)
    (loc : FileLocation) (content : Bytes)
    (located : ask_mds net "MetadataService.GetFileLocation" "get file location failed: "
        (get_file_location path)
        mds_addr
        w
      ≡ returns loc)
    (written : loc.status ≢ status_pending) (keeps : All (Keeps w content) loc.replicas)
    (some_answers : SomeDownloads net w loc.replicas) where
  -- A download of a file that is not pending, by the location that the server gives, succeeds when
  -- some replica answers, whatever the others do: where the replicas that have the file have the
  -- same bytes, the local file gets these, if they do not arrive as a nil slice and can be written.
  pub get_file-downloads :
      net.received content ≡ some content
      → save content ≡ none
      → get_file net mds_addr path save w ≡ returns content
  unfolding get_file
  get_file-downloads arrives saves =
      let (last, found) =
        download_from-answered net w content (length loc.replicas) none loc.replicas keeps
          some_answers in
      ground (arith, located, written, found, arrives, saves)

  -- A download of a file that is not pending fails, although a replica answers with all of the
  -- file, when its bytes arrive as a nil slice, as no bytes do.
  pub get_file-fails_on_nil :
      net.received content ≡ none
      → (text : String) × (get_file net mds_addr path save w ≡ fails text)
  unfolding get_file
  get_file-fails_on_nil arrives =
      let (last, found) =
        download_from-answered net w content (length loc.replicas) none loc.replicas keeps
          some_answers in
      (
        "all " <> decimal (length loc.replicas) <> " replicas failed, last error: " <> shown last,
        ground (arith, located, written, found, arrives),
      )
