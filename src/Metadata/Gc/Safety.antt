-- ===== src/Metadata/Gc/Safety.antt =====
-- What a collection leaves on a data node.
use fstorex.Base.{
  String, ◌<>◌, ◌≡◌, ◌+◌, ◌<◌, ◌⊎◌, ◌≢◌, refl, sym, ap, ◌∙◌, true, false, Option, some, List, [],
  ◌∷◌, arith, string_eq, contains, contains-append, All, Bool-cases, Option-cases, subst, inl, inr,
  ==_refl, ==_ne,
}
use fstorex.Base.Text.{trim_prefix, trim_prefix-append}
use text.Mathlib.TextLemmas.{append_cancel_left}
use fstorex.Base.Dict.{erase, lookup-erase}
use fstorex.Base.Dict
use fstorex.Types.{Time, NodeFile}
use fstorex.Metadata.Tree.{
  Attrs, Entry, entry, Children, empty, bind, attrs, is_dir, find, lookup_parts,
}
use mathlib.Core.Option.{some-injective}
use fstorex.Metadata.Tree.Modify.{lookup-step, lookup-gone, find-empty}
use fstorex.Metadata.Tree.Shape.{IsWellFormed, find-IsWellFormed}
use fstorex.DataNode.Paths.{resolve_path}
use fstorex.DataNode.Disk.{DataNode, Faults}
use fstorex.DataNode.Service.{list_all_paths, listing, delete_data}
use fstorex.Metadata.Gc.Orphans.{FileOf}
use fstorex.Metadata.Gc.{
  gc_safety_window, collect_file_ids, collect_children, keeps, gc_files, garbage_collect_node,
}

find-collected :
    (n id : String) (cs : Children) (e : Entry)
    → find n cs ≡ some e
    → contains (collect_file_ids e) id ≡ true
    → contains (collect_children cs) id ≡ true
unfolding find collect_file_ids
find-collected n id empty e here inside = ground (arith, here)
find-collected n id (bind j d cs) e here inside = ground (
  arith,
  here,
  inside,
  contains-append (collect_file_ids d) (collect_children cs) id,
  find-collected n id cs e,
)

own_id :
    (a : Attrs) (cs : Children)
    → a.is_dir ≡ false
    → a.file_id ≢ ""
    → contains (collect_file_ids (entry a cs)) a.file_id ≡ true
unfolding collect_file_ids
own_id a cs file named = ground (arith, file, named, ==_refl a.file_id)

in_dir :
    (a : Attrs) (cs : Children) (id : String)
    → a.is_dir ≡ true
    → contains (collect_children cs) id ≡ true
    → contains (collect_file_ids (entry a cs)) id ≡ true
unfolding collect_file_ids
in_dir a cs id dir inside = ground (arith, dir, inside)

root_found : (root e : Entry) → lookup_parts [] root ≡ some e → root ≡ e
unfolding lookup_parts
root_found root e here = some-injective _ _ here

-- A file of a well-formed tree is collected.
pub lookup-collected :
    (ps : List String) (root e : Entry)
    → IsWellFormed root
    → lookup_parts ps root ≡ some e
    → is_dir e ≡ false
    → (attrs e).file_id ≢ ""
    → contains (collect_file_ids root) (attrs e).file_id ≡ true
lookup-collected [] (entry a cs) e w here file named =
    let same : entry a cs ≡ e = root_found (entry a cs) e here in
    subst (λ x. contains (collect_file_ids (entry a cs)) (attrs x).file_id ≡ true) same
      (own_id a cs (ap is_dir same ∙ file)
        (λ p. named (ap (λ x. (attrs x).file_id) (sym same) ∙ p)))
lookup-collected (p ∷ ps) (entry a cs) e w here file named = elim (Option-cases (find p cs)) [
  | inl gone ↦ ground (arith, here, lookup-gone p ps a cs gone)
  | inr (d, there) ↦ elim (Bool-cases a.is_dir) [
    | inl dir ↦ in_dir a cs (attrs e).file_id dir (
        find-collected p (attrs e).file_id cs d there (
          lookup-collected ps d e (find-IsWellFormed p cs w.1 there)
            (sym (lookup-step p ps a cs there) ∙ here) file named))
    | inr leaf ↦ ground (arith, there, w.0 leaf, find-empty p)
  ]
]

pub delete_data-dir :
    (f : Faults) (path : String) (dn : DataNode) → (delete_data f path dn).0.data_dir ≡ dn.data_dir
unfolding delete_data
delete_data-dir f path dn = ground arith

-- A file whose FileID is in use stays.
keeps-valid :
    (valid : List String) (gc_start : Time) (nf : NodeFile) (id : String)
    → contains valid id ≡ true
    → id ≢ ""
    → nf.path ≡ "/data/" <> id
    → keeps valid gc_start nf ≡ true
unfolding keeps
keeps-valid valid gc_start nf id used named here = ground (
  arith,
  used,
  here,
  named,
  trim_prefix-append "/data/" id,
  ap (λ x. trim_prefix x "/data/") here,
  ==_ne id "",
)

-- Every file that a node lists lies where its path resolves to.
abbrev pub IsAtHome : String → NodeFile → Type 0
IsAtHome data_dir nf = resolve_path data_dir nf.path ≡ some (data_dir <> nf.path)

-- A listed file of a FileID that the collector does not take for an orphan.
abbrev pub Stays : List String → Time → String → NodeFile → Type 0
Stays valid gc_start id nf = nf.path ≡ "/data/" <> id → keeps valid gc_start nf ≡ true

module _ (valid : List String) (gc_start : Time) (rpc : String → Option Faults) (id : String) where
  delete_data-spares :
      (f : Faults) (nf : NodeFile) (dn : DataNode)
      → IsAtHome dn.data_dir nf
      → Stays valid gc_start id nf
      → keeps valid gc_start nf ≡ false
      → Dict.lookup (dn.data_dir <> ("/data/" <> id)) (delete_data f nf.path dn).0.disk
        ≡ Dict.lookup (dn.data_dir <> ("/data/" <> id)) dn.disk
  unfolding delete_data
  delete_data-spares f nf dn home stays goes = ground (
    arith,
    home,
    stays,
    goes,
    lookup-erase (dn.data_dir <> ("/data/" <> id)) (dn.data_dir <> nf.path) dn.disk,
    append_cancel_left dn.data_dir nf.path ("/data/" <> id),
  )

  pub gc_files-spares :
      (data_dir : String) (files : List NodeFile) (dn : DataNode)
      → dn.data_dir ≡ data_dir
      → All (IsAtHome data_dir) files
      → All (Stays valid gc_start id) files
      → Dict.lookup (data_dir <> ("/data/" <> id)) (gc_files valid gc_start rpc files dn).disk
        ≡ Dict.lookup (data_dir <> ("/data/" <> id)) dn.disk
  unfolding gc_files
  gc_files-spares data_dir [] dn dir home stays = refl
  gc_files-spares data_dir (nf ∷ files) dn dir home stays =
      elim (Bool-cases (keeps valid gc_start nf)) [
        | inl here ↦ ground (arith, here, gc_files-spares data_dir files dn dir home.1 stays.1)
        | inr goes ↦ elim (Option-cases (rpc nf.path)) [
          | inl lost ↦
              ground (arith, goes, lost, gc_files-spares data_dir files dn dir home.1 stays.1)
          | inr (f, called) ↦ ground (
            arith,
            goes,
            called,
            dir,
            gc_files-spares data_dir files (delete_data f nf.path dn).0
                (delete_data-dir f nf.path dn ∙ dir) home.1 stays.1,
            delete_data-spares f nf dn (subst (λ d. IsAtHome d nf) (sym dir) home.0) stays.0 goes,
          )
        ]
      ]

  used-Stays :
      (files : List NodeFile)
      → contains valid id ≡ true
      → id ≢ ""
      → All (Stays valid gc_start id) files
  used-Stays [] used named = tt
  used-Stays (nf ∷ files) used named =
      (keeps-valid valid gc_start nf id used named, used-Stays files used named)

  keeps-recent :
      (nf : NodeFile) → gc_start < nf.mod_time + gc_safety_window → keeps valid gc_start nf ≡ true
  unfolding keeps
  keeps-recent nf recent = ground arith

  recent-Stays :
      (files : List NodeFile)
      → All (λ nf. nf.path ≡ "/data/" <> id → gc_start < nf.mod_time + gc_safety_window) files
      → All (Stays valid gc_start id) files
  recent-Stays [] recent = tt
  recent-Stays (nf ∷ files) recent =
      (λ same. keeps-recent nf (recent.0 same), recent-Stays files recent.1)

-- The data of a FileID that a collection must leave alone: that of a file of the tree, or data that
-- every listing of it on the node shows to be younger than the safety window.
abbrev pub IsProtected : Entry → Time → String → DataNode → Type 0
IsProtected root gc_start id dn =
    (FileOf root id × (id ≢ ""))
    ⊎ All (λ nf. nf.path ≡ "/data/" <> id → gc_start < nf.mod_time + gc_safety_window)
        (listing dn.data_dir dn.disk)

-- A collection leaves the data of a protected FileID on a node as they are, where the tree is well
-- formed, and every file that the node lists lies where its path resolves to.
pub garbage_collect_node-spares :
    (root : Entry) (id : String) (gc_start : Time) (listed : Option Faults)
    (rpc : String → Option Faults) (dn : DataNode)
    → IsWellFormed root
    → IsProtected root gc_start id dn
    → All (IsAtHome dn.data_dir) (listing dn.data_dir dn.disk)
    → Dict.lookup
        (dn.data_dir <> ("/data/" <> id))
        (garbage_collect_node (collect_file_ids root) gc_start listed rpc dn).disk
      ≡ Dict.lookup (dn.data_dir <> ("/data/" <> id)) dn.disk
unfolding garbage_collect_node list_all_paths
garbage_collect_node-spares root id gc_start listed rpc dn w
      (inl ((ps, e, here, file, same), named)) home =
    ground (
      arith,
      gc_files-spares (collect_file_ids root) gc_start rpc id dn.data_dir
          (listing dn.data_dir dn.disk) dn refl home
          (used-Stays (collect_file_ids root) gc_start rpc id (listing dn.data_dir dn.disk)
            (subst (λ i. contains (collect_file_ids root) i ≡ true) same
              (lookup-collected ps root e w here file (λ p. named (sym same ∙ p))))
            named),
    )
garbage_collect_node-spares root id gc_start listed rpc dn w (inr recent) home = ground (
  arith,
  gc_files-spares (collect_file_ids root) gc_start rpc id dn.data_dir (listing dn.data_dir dn.disk)
      dn refl home
      (recent-Stays (collect_file_ids root) gc_start rpc id (listing dn.data_dir dn.disk) recent),
)
