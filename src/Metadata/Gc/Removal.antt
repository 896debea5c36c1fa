-- ===== src/Metadata/Gc/Removal.antt =====
-- The orphans that a collection removes from a node.
use fstorex.Base.{
  String, ◌<>◌, ◌≡◌, ◌≤◌, ◌+◌, sym, ap, ◌∙◌, false, Option, some, none, List, [], ◌∷◌, arith,
  string_eq, contains, Bool-cases, Option-cases, subst, inl, inr, ◌⊎◌, ==_refl, option_both, ◌==◌,
}
use text.Mathlib.TextLemmas.{append_assoc}
use fstorex.Base.Dict
use fstorex.Base.Dict.{Dict, lookup-insert, lookup-erase}
use fstorex.Base.Text.{strip_prefix, has_suffix, trim_prefix-append, strip_prefix-append}
use fstorex.Types.{Time, NodeFile}
use fstorex.DataNode.Paths.{resolve_path}
use fstorex.DataNode.Disk.{DataNode, Faults, File, Disk}
use fstorex.DataNode.Service.{list_all_paths, listing, listed, delete_data, Served}
use fstorex.Metadata.Gc.{keeps, gc_files, garbage_collect_node, gc_safety_window}
use fstorex.Metadata.Gc.Safety.{delete_data-dir}

-- A file that a node lists.
abbrev pub Among : NodeFile → List NodeFile → Type 0
Among nf [] = ⊥
Among nf (m ∷ files) = (m ≡ nf) ⊎ Among nf files

-- A file of the disk that the walk reports is in the list.
listing-Among :
    (data_dir real_path : String) (file : File) (nf : NodeFile) (disk : Disk)
    → Dict.lookup real_path disk ≡ some file
    → listed data_dir real_path file ≡ some nf
    → Among nf (listing data_dir disk)
unfolding listing Dict.lookup
listing-Among data_dir real_path file nf [] there told = ground (arith, there)
listing-Among data_dir real_path file nf ((p, g) ∷ disk) there told =
    option_both (Among nf) (listed data_dir p g)
      (λ gone.
        listing-Among data_dir real_path file nf disk (ground (arith, there, told, gone)) told)
      (λ m shown. elim (Bool-cases (p == real_path)) [
        | inl same ↦ inl (ground (arith, there, told, shown, same))
        | inr other ↦
            inr (listing-Among data_dir real_path file nf disk (ground (arith, there, other)) told)
      ])

module _ (valid : List String) (gc_start : Time) (rpc : String → Option Faults)
    (real_path : String) where
  delete_data-absent :
      (f : Faults) (path : String) (dn : DataNode)
      → Dict.lookup real_path dn.disk ≡ none
      → Dict.lookup real_path (delete_data f path dn).0.disk ≡ none
  unfolding delete_data
  delete_data-absent f path dn gone =
      option_both (λ (r : Served). Dict.lookup real_path r.0.disk ≡ none)
        (resolve_path dn.data_dir path) (λ _. gone)
        (λ p here. ground (arith, gone, lookup-erase real_path p dn.disk))

  gc_files-absent :
      (files : List NodeFile) (dn : DataNode)
      → Dict.lookup real_path dn.disk ≡ none
      → Dict.lookup real_path (gc_files valid gc_start rpc files dn).disk ≡ none
  unfolding gc_files
  gc_files-absent [] dn gone = gone
  gc_files-absent (nf ∷ files) dn gone = elim (Bool-cases (keeps valid gc_start nf)) [
    | inl stays ↦ ground (arith, stays, gc_files-absent files dn gone)
    | inr goes ↦ elim (Option-cases (rpc nf.path)) [
      | inl lost ↦ ground (arith, goes, lost, gc_files-absent files dn gone)
      | inr (f, called) ↦ ground (
        arith,
        goes,
        called,
        gc_files-absent files (delete_data f nf.path dn).0 (delete_data-absent f nf.path dn gone),
      )
    ]
  ]

  module _ (nf : NodeFile) (f : Faults) (goes : keeps valid gc_start nf ≡ false)
      (called : rpc nf.path ≡ some f) (works : f.remove ≡ false) where
    delete_data-removes :
        (dn : DataNode)
        → resolve_path dn.data_dir nf.path ≡ some real_path
        → Dict.lookup real_path (delete_data f nf.path dn).0.disk ≡ none
    unfolding delete_data
    delete_data-removes dn here =
        ground (arith, here, works, lookup-erase real_path real_path dn.disk, ==_refl real_path)

    gc_files-removes :
        (files : List NodeFile) (dn : DataNode)
        → Among nf files
        → resolve_path dn.data_dir nf.path ≡ some real_path
        → Dict.lookup real_path (gc_files valid gc_start rpc files dn).disk ≡ none
    unfolding gc_files
    gc_files-removes [] dn among here = absurd among
    gc_files-removes (m ∷ files) dn (inl same) here = ground (
      arith,
      same,
      goes,
      called,
      gc_files-absent files (delete_data f nf.path dn).0 (delete_data-removes dn here),
    )
    gc_files-removes (m ∷ files) dn (inr later) here = elim (Bool-cases (keeps valid gc_start m)) [
      | inl stays ↦ ground (arith, stays, gc_files-removes files dn later here)
      | inr out ↦ elim (Option-cases (rpc m.path)) [
        | inl lost ↦ ground (arith, out, lost, gc_files-removes files dn later here)
        | inr (g, tried) ↦ ground (
          arith,
          out,
          tried,
          gc_files-removes files (delete_data g m.path dn).0 later
              (ap (λ d. resolve_path d nf.path) (delete_data-dir g m.path dn) ∙ here),
        )
      ]
    ]

keeps-orphan :
    (valid : List String) (gc_start : Time) (id : String) (written : Time)
    → contains valid id ≡ false
    → written + gc_safety_window ≤ gc_start
    → keeps valid gc_start (record { path = "/data/" <> id; mod_time = written }) ≡ false
unfolding keeps
keeps-orphan valid gc_start id written unused old =
    ground (arith, unused, old, trim_prefix-append "/data/" id)

listed-under :
    (data_dir rel : String) (file : File)
    → has_suffix (data_dir <> ("/" <> rel)) ".tmp" ≡ false
    → listed data_dir (data_dir <> ("/" <> rel)) file
      ≡ some (record { path = "/" <> rel; mod_time = file.mod_time })
unfolding listed
listed-under data_dir rel file plain = ground (
  arith,
  plain,
  subst (λ s. strip_prefix s (data_dir <> "/") ≡ some rel) (append_assoc data_dir "/" rel)
      (strip_prefix-append (data_dir <> "/") rel),
)

listed-data :
    (data_dir id : String) (file : File)
    → has_suffix (data_dir <> ("/data/" <> id)) ".tmp" ≡ false
    → listed data_dir (data_dir <> ("/data/" <> id)) file
      ≡ some (record { path = "/data/" <> id; mod_time = file.mod_time })
listed-data data_dir id file plain =
    subst
      (λ s.
        has_suffix (data_dir <> s) ".tmp" ≡ false
        → listed data_dir (data_dir <> s) file
          ≡ some (record { path = s; mod_time = file.mod_time }))
      (sym (append_assoc "/" "data/" id)) (listed-under data_dir ("data/" <> id) file) plain

module _ (valid : List String) (gc_start : Time) (rpc : String → Option Faults) (id : String)
    (f g : Faults) (dn : DataNode) (file : File) where
  abbrev real_path : String
  real_path = dn.data_dir <> ("/data/" <> id)

  abbrev entry_of : NodeFile
  entry_of = record { path = "/data/" <> id; mod_time = file.mod_time }

  -- A collection removes the data of an unused FileID that are older than the safety window, where
  -- its calls reach the node and succeed.
  pub garbage_collect_node-removes :
      g.walk ≡ false
      → f.remove ≡ false
      → rpc ("/data/" <> id) ≡ some f
      → Dict.lookup real_path dn.disk ≡ some file
      → has_suffix real_path ".tmp" ≡ false
      → resolve_path dn.data_dir ("/data/" <> id) ≡ some real_path
      → contains valid id ≡ false
      → file.mod_time + gc_safety_window ≤ gc_start
      → Dict.lookup real_path (garbage_collect_node valid gc_start (some g) rpc dn).disk ≡ none
  unfolding garbage_collect_node list_all_paths
  garbage_collect_node-removes walks works called there plain home unused old = ground (
    arith,
    walks,
    gc_files-removes valid gc_start rpc real_path entry_of f
        (keeps-orphan valid gc_start id file.mod_time unused old) called works
        (listing dn.data_dir dn.disk) dn
        (listing-Among dn.data_dir real_path file entry_of dn.disk there
          (listed-data dn.data_dir id file plain))
        home,
  )
