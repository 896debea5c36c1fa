-- ===== src/Cmd/Cli/Mkdir.antt =====
-- From the command line to the tree of the leader (cmd/fstorex/main.go).
use fstorex.Base.{
  ℕ, zero, suc, String, ◌≡◌, refl, ap, ◌∙◌, sym, subst, if_both, option_both, Option, Bool, true,
  false, none, some, List, ◌∷◌, arith, ◌==◌, string_eq, inl, inr, Option-cases, Bool-cases,
}
use mathlib.Core.Option.{some-injective}
use fstorex.Base.Dict
use fstorex.Base.Dict.{lookup-insert}
use fstorex.Types.{Time}
use fstorex.Metadata.Tree.{Entry, is_dir}
use fstorex.Metadata.State.{CommandPayload, MetadataServer, op_mkdir}
use fstorex.Metadata.Apply.{lookup, apply_mkdir, new_dir}
use fstorex.Metadata.Apply.Outcomes.{mkdir-lookup}
use fstorex.Metadata.Machine.{dispatch, apply}
use fstorex.Metadata.Server.{
  Raft, Handled, Answer, ServerError, message, answer, refuse, submit, mkdir,
}
use fstorex.Metadata.Server.Creation.{Commits}
use fstorex.DataNode.Heartbeat.{extract_leader_addr}
use fstorex.Client.World.{
  Result, Site, World, Net, MdsContact, down, lost_answer, up, returns, fails,
}
use fstorex.Client.Calls.{at_site, mds_tries, call_mds, redirects}
use fstorex.Client.Files.{wrapped, mkdir_path}
use fstorex.Cmd.Lines.{Line, exit_with}
use fstorex.Cmd.Shell.{Shell, reported}
use fstorex.Cmd.Cli.{run_mkdir, run_command, main}

-- A directory stands at a path of a server.
abbrev pub IsDirAt : String → MetadataServer → Type 0
IsDirAt path mds = (e : Entry) × (lookup mds path ≡ some e) × (is_dir e ≡ true)

applied-IsDirAt :
    (p : CommandPayload) (now : Time) (mds : MetadataServer)
    → (apply_mkdir p now mds).1 ≡ none
    → IsDirAt p.path (apply_mkdir p now mds).0
applied-IsDirAt p now mds fine = elim (mkdir-lookup p now mds fine) [
  | inl (e, here, dir, same) ↦ (e, ap (λ m. lookup m p.path) same ∙ here, dir)
  | inr (dir, name, parts, free, there) ↦ (new_dir name p.file_id now, there, refl)
]

apply-mkdir :
    (p : CommandPayload) (now : Time) (mds : MetadataServer)
    → apply (record { op = op_mkdir; payload = some p; now = now }) mds ≡ apply_mkdir p now mds
unfolding apply dispatch string_eq
apply-mkdir p now mds = refl

module _ (raft : Raft) (now : Time) (commits : Commits raft now) (mds : MetadataServer) where
  submit-IsDirAt :
      (b : Bool) (p : CommandPayload)
      → p.op ≡ op_mkdir
      → (submit raft p true mds).1 ≡ answer b
      → IsDirAt p.path (submit raft p true mds).0
  submit-IsDirAt b p op ok = elim (Option-cases (raft.propose p mds).1) [
    | inl made ↦
        let (fine, same) = commits p mds made in
        let run =
          ap (λ o. apply (record { op = o; payload = some p; now = now }) mds) op
          ∙ apply-mkdir p now mds in
        subst (IsDirAt p.path) (sym (same ∙ ap (λ r. r.0) run))
          (applied-IsDirAt p now mds (sym (ap (λ r. r.1) run) ∙ fine))
    | inr (text, lost) ↦ ground (arith, ok, lost)
  ]

  -- A server that answers `Mkdir` has the directory.
  mkdir-IsDirAt :
      (b : Bool) (new_id : Option String) (path : String)
      → (mkdir raft new_id path mds).1 ≡ answer b
      → IsDirAt path (mkdir raft new_id path mds).0
  unfolding mkdir
  mkdir-IsDirAt b new_id path =
      if_both Q raft.is_leader
        (λ _. option_both Q new_id (λ _ h. cc) λ id _ ok. submit-IsDirAt b _ refl ok) (λ _ h. cc)
    where
      Q : Handled Bool → Type 0
      Q h = h.1 ≡ answer b → IsDirAt path h.0

-- Every server applies without an error each command that its Raft node accepts.
abbrev pub AllCommit : Time → World → Type 0
AllCommit now w =
    (addr : String) (site : Site) → Dict.lookup addr w.sites ≡ some site → Commits site.raft now

-- Some server has a directory at a path.
abbrev pub SomeDirAt : String → World → Type 0
SomeDirAt path w =
    (addr : String) × (site : Site) × (Dict.lookup addr w.sites ≡ some site)
    × IsDirAt path site.state

at_site-AllCommit :
    (now : Time) (addr : String) (state : MetadataServer) (site : Site) (w : World)
    → Dict.lookup addr w.sites ≡ some site
    → AllCommit now w
    → AllCommit now (at_site addr state site w)
at_site-AllCommit now addr state site w here all q other found = elim (Bool-cases (addr == q)) [
  | inl same ↦
      let told : record site { state = state } ≡ other =
        some-injective (record site { state = state }) other
          (ground
            (arith, found, same, lookup-insert q addr (record site { state = state }) w.sites)) in
      subst (λ (s : Site). Commits s.raft now) told (all addr site here)
  | inr differ ↦
      all q other (
        ground (arith, found, differ, lookup-insert q addr (record site { state = state }) w.sites))
]

-- Rules for what a call leads to.
contact_both :
    {B : Type 0} (P : B → Type 0) (c : MdsContact) {d l u : B}
    → P d
    → P l
    → P u
    → P (elim c [ down ↦ d | lost_answer ↦ l | up ↦ u ])
contact_both P down d l u = d
contact_both P lost_answer d l u = l
contact_both P up d l u = u

answer_both :
    {B : Type 0} (P : B → Type 0) (reply : Answer Bool) {a : Bool → B} {n : ServerError → B}
    → ((r : Bool) → reply ≡ answer r → P (a r))
    → ((e : ServerError) → reply ≡ refuse e → P (n e))
    → P (elim reply [ answer r ↦ a r | refuse e ↦ n e ])
answer_both P (answer r) h k = h r refl
answer_both P (refuse e) h k = k e refl

turned_both :
    {B : Type 0} (P : B → Type 0) (b : Bool) {t n : B}
    → P t
    → P n
    → P (elim b [ false ↦ n | true ↦ t ])
turned_both P true h k = h
turned_both P false h k = k

unwrap : (b : Bool) (what : String) (r : Result Bool) → wrapped what r ≡ returns b → r ≡ returns b
unwrap b what (returns r) ok = ok
unwrap b what (fails text) ok = cc

module _ (net : Net) (now : Time) (path : String) (b : Bool) where
  abbrev handler : Raft → MetadataServer → Handled Bool
  handler raft = mkdir raft net.new_id path

  -- What a call leaves that returns.
  abbrev IsMade : World × Result Bool → Type 0
  IsMade r = r.1 ≡ returns b → SomeDirAt path r.0

  mds_tries-IsMade :
      (tries : ℕ) (addr : String) (w : World)
      → AllCommit now w
      → IsMade (mds_tries net "MetadataService.Mkdir" handler tries addr w)
  unfolding mds_tries
  mds_tries-IsMade zero addr w all = λ ok. cc
  mds_tries-IsMade (suc tries) addr w all =
      option_both IsMade (Dict.lookup addr w.sites) (λ gone ok. cc)
        (λ site here.
          let after : World = at_site addr (handler site.raft site.state).0 site w in
          contact_both IsMade (net.mds "MetadataService.Mkdir" addr) (λ ok. cc) (λ ok. cc)
            (answer_both IsMade (handler site.raft site.state).1
              (λ r said ok. (
                addr,
                record site { state = (handler site.raft site.state).0 },
                ground (
                  arith,
                  lookup-insert addr addr (record site { state = (handler site.raft site.state).0 })
                      w.sites,
                ),
                mkdir-IsDirAt site.raft now (all addr site here) site.state r net.new_id path said,
              ))
              (λ e said.
                turned_both IsMade (redirects (message e) addr)
                  (mds_tries-IsMade tries (extract_leader_addr (message e)) after
                    (at_site-AllCommit now addr (handler site.raft site.state).0 site w here all))
                  (λ ok. cc))))

  path-IsMade :
      (mds_addr : String) (w : World)
      → AllCommit now w
      → (mkdir_path net mds_addr path w).1 ≡ returns b
      → SomeDirAt path (mkdir_path net mds_addr path w).0
  unfolding mkdir_path
  path-IsMade mds_addr w all ok =
      mds_tries-IsMade 3 mds_addr w all
        (unwrap b "mkdir failed: " (call_mds net "MetadataService.Mkdir" handler mds_addr w).1 ok)

zero-exits :
    (r : Result Bool) (message : String) (out : List Line)
    → (reported message r out).code ≡ 0
    → (b : Bool) × (r ≡ returns b)
unfolding reported exit_with
zero-exits (returns b) message out fine = (b, refl)
zero-exits (fails text) message out fine = absurd (omega (arith, fine))

-- When `mkdir` ends with the exit code 0, some server has a directory at the path, where every server
-- applies without an error each command that its Raft node accepts: whichever servers the call has
-- gone through, and whatever becomes of the calls.
pub main-mkdir_lasts :
    (sh : Shell) (net : Net) (mds_addr path : String) (rest : List String) (w : World) (now : Time)
    → AllCommit now w
    → (main sh net mds_addr ("mkdir" ∷ path ∷ rest) w).1.code ≡ 0
    → SomeDirAt path (main sh net mds_addr ("mkdir" ∷ path ∷ rest) w).0
unfolding main run_command run_mkdir string_eq
main-mkdir_lasts sh net mds_addr path rest w now all fine =
    let (b, returned) = zero-exits (mkdir_path net mds_addr path w).1 _ _ fine in
    path-IsMade net now path b mds_addr w all returned
