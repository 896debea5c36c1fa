-- ===== src/Metadata/Replicator/Coverage.antt =====
-- A scan of the tree misses no file.
use fstorex.Base.{
  ℕ, suc, zero, ◌+◌, ◌-◌, ◌≤◌, ◌<◌, ◌≢◌, false, filter, String, ◌≡◌, refl, sym, ap, ◌∙◌, subst,
  true, false, some, List, [], ◌∷◌, ◌++◌, arith, length, ltb, ◌==◌, string_eq, nat_eq, contains,
  ==_refl, Bool-cases, Option-cases, inl, inr, ◌⊎◌, map, All, All-append,
}
use mathlib.Core.Option.{some-injective}
use fstorex.Metadata.Paths.{split_path}
use fstorex.Metadata.Tree.{
  Attrs, Entry, entry, Children, empty, bind, attrs, children, is_dir, find, lookup_parts,
}
use fstorex.Metadata.Tree.Modify.{lookup-step, lookup-gone, find-empty}
use fstorex.Metadata.Tree.Shape.{IsWellFormed, children-AllWellFormed}
use fstorex.Metadata.State.{MetadataServer, status_pending, status_recovering}
use fstorex.Metadata.Apply.{lookup}
use fstorex.Metadata.Apply.Trees.{IsTree}
use fstorex.Metadata.Replicator.{
  RepairTask, Queue, queued, alive_replicas, task_of, scan, entries, entries_below,
  find_under_replicated_tasks,
}
use fstorex.Metadata.Replicator.Tasks.{alive_replicas-filter, IsItem, queued-IsItem, root-IsItem}

-- Some item of the queue leads to the entry.
abbrev Reaches : Entry → Queue → Type 0
Reaches f [] = ⊥
Reaches f ((e, path) ∷ queue) =
    ((ps : List String) × (lookup_parts ps e ≡ some f)) ⊎ Reaches f queue

Reaches-append : (f : Entry) (q r : Queue) → Reaches f q ⊎ Reaches f r → Reaches f (q ++ r)
Reaches-append f [] r (inl h) = absurd h
Reaches-append f [] r (inr h) = h
Reaches-append f (item ∷ q) r (inl (inl h)) = inl h
Reaches-append f (item ∷ q) r (inl (inr h)) = inr (Reaches-append f q r (inl h))
Reaches-append f (item ∷ q) r (inr h) = inr (Reaches-append f q r (inr h))

Reaches-queued :
    (f c : Entry) (path name : String) (ps : List String) (cs : Children)
    → find name cs ≡ some c
    → lookup_parts ps c ≡ some f
    → Reaches f (queued path cs)
unfolding queued find
Reaches-queued f c path name ps empty found here = cc
Reaches-queued f c path name ps (bind n d cs) found here = elim (Bool-cases (n == name)) [
  | inl same ↦
      let at_front : d ≡ c = ground (arith, found, same) in
      inl (ps, ap (lookup_parts ps) at_front ∙ here)
  | inr other ↦ inr (Reaches-queued f c path name ps cs (ground (arith, found, other)) here)
]

weight : Queue → ℕ
weight [] = 0
weight ((e, path) ∷ queue) = entries e + weight queue

weight-append : (q r : Queue) → weight (q ++ r) ≡ weight q + weight r
unfolding weight
weight-append [] r = omega arith
weight-append ((e, path) ∷ q) r = omega (arith, weight-append q r)

weight-queued : (path : String) (cs : Children) → weight (queued path cs) ≡ entries_below cs
unfolding weight queued entries entries_below
weight-queued path empty = refl
weight-queued path (bind n c cs) = omega (arith, weight-queued path cs)

entries-step : (e : Entry) → entries e ≡ suc (entries_below (children e))
unfolding entries
entries-step (entry a cs) = refl

-- A file makes a task under one path when it does under another.
task_of-path :
    (mds : MetadataServer) (path path' : String) (a : Attrs) (task : RepairTask)
    → task_of mds path a ≡ some task
    → (task' : RepairTask) × (task_of mds path' a ≡ some task') × (task'.file_id ≡ a.file_id)
unfolding task_of
task_of-path mds path path' a task found =
    (record task { path = path' }, ground (arith, found), ground (arith, found))

abbrev pub ids_of : List RepairTask → List String
ids_of tasks = map (λ t. t.file_id) tasks

module _ (mds : MetadataServer) (f : Entry) (file : is_dir f ≡ false) (q : String)
    (task : RepairTask) (due : task_of mds q (attrs f) ≡ some task) where
  here_or_below :
      (e : Entry) (path : String) (ps : List String)
      → IsWellFormed e
      → lookup_parts ps e ≡ some f
      → (e ≡ f) ⊎ ((is_dir e ≡ true) × Reaches f (queued path (children e)))
  here_or_below e path [] w here = inl (some-injective _ _ (unfold lookup_parts in here))
  here_or_below (entry a cs) path (p ∷ ps) w here = elim (Option-cases (find p cs)) [
    | inl gone ↦ ground (arith, here, lookup-gone p ps a cs gone)
    | inr (c, found) ↦ elim (Bool-cases a.is_dir) [
      | inl dir ↦
          inr
            (dir, Reaches-queued f c path p ps cs found (sym (lookup-step p ps a cs found) ∙ here))
      | inr leaf ↦ ground (arith, found, w.0 leaf, find-empty p)
    ]
  ]

  scan-finds :
      (fuel left : ℕ) (queue : Queue)
      → All (IsItem mds) queue
      → weight queue ≤ fuel
      → length (scan mds fuel left queue) < left
      → Reaches f queue
      → contains (ids_of (scan mds fuel left queue)) (attrs f).file_id ≡ true
  unfolding scan weight
  scan-finds fuel left [] items enough few reaches = absurd reaches
  scan-finds zero left ((e, path) ∷ queue) items enough few reaches =
      absurd (omega (arith, enough, entries-step e))
  scan-finds (suc fuel) left ((e, path) ∷ queue) items enough few reaches =
      elim (Bool-cases (is_dir e)) [
        | inl dir ↦
            let below : Reaches f (queue ++ queued path (children e)) = elim reaches [
              | inl (ps, here) ↦ elim (here_or_below e path ps items.0.1 here) [
                | inl same ↦ cc (ap is_dir same, dir, file)
                | inr (d, further) ↦ Reaches-append f queue (queued path (children e)) (inr further)
              ]
              | inr later ↦ Reaches-append f queue (queued path (children e)) (inl later)
            ] in
            let step : scan mds fuel left (queue ++ queued path (children e))
                ≡ scan mds (suc fuel) left ((e, path) ∷ queue) =
              rw (dir, scan) refl in
            subst (λ tasks. contains (ids_of tasks) (attrs f).file_id ≡ true) step
              (scan-finds fuel left (queue ++ queued path (children e))
                (All-append (IsItem mds) queue (queued path (children e)) items.1 (
                  queued-IsItem mds path e (children e) items.0.0 (λ n c found. found)
                    (children-AllWellFormed e items.0.1)))
                (omega (
                  arith,
                  enough,
                  entries-step e,
                  weight-append queue (queued path (children e)),
                  weight-queued path (children e),
                ))
                (subst (λ tasks. length tasks < left) (sym step) few) below)
        | inr leaf ↦ elim reaches [
          | inl (ps, here) ↦ elim (here_or_below e path ps items.0.1 here) [
            | inr (dir, further) ↦ cc (dir, leaf)
            | inl same ↦
                let (own, found, own_id) = task_of-path mds q path (attrs f) task due in
                let found_here : task_of mds path (attrs e) ≡ some own =
                  ap (λ x. task_of mds path (attrs x)) same ∙ found in
                ground (arith, leaf, found_here, own_id, ==_refl (attrs f).file_id)
          ]
          | inr later ↦ elim (Option-cases (task_of mds path (attrs e))) [
            | inl passed ↦
                let step : scan mds fuel left queue ≡ scan mds (suc fuel) left ((e, path) ∷ queue) =
                  rw (leaf, passed, scan) refl in
                subst (λ tasks. contains (ids_of tasks) (attrs f).file_id ≡ true) step
                  (scan-finds fuel left queue items.1 (omega (arith, enough, entries-step e))
                    (subst (λ tasks. length tasks < left) (sym step) few) later)
            | inr (other, found) ↦ elim (Bool-cases (ltb 1 left)) [
              | inl more ↦
                  let rest : List RepairTask = scan mds fuel (left - 1) queue in
                  let step : other ∷ rest ≡ scan mds (suc fuel) left ((e, path) ∷ queue) =
                    rw (leaf, found, more, scan) refl in
                  subst (λ tasks. contains (ids_of tasks) (attrs f).file_id ≡ true) step
                    (ground (
                      arith,
                      scan-finds fuel (left - 1) queue items.1
                          (omega (arith, enough, entries-step e))
                          (omega (arith, subst (λ tasks. length tasks < left) (sym step) few))
                          later,
                    ))
              | inr last ↦
                  let step : other ∷ [] ≡ scan mds (suc fuel) left ((e, path) ∷ queue) =
                    rw (leaf, found, last, scan) refl in
                  ground (arith, last, subst (λ tasks. length tasks < left) (sym step) few)
            ]
          ]
        ]
      ]

due_has_task :
    (mds : MetadataServer) (path : String) (a : Attrs)
    → a.status ≢ status_pending
    → a.status ≢ status_recovering
    → contains mds.repairing a.file_id ≡ false
    → length (filter (λ r. contains mds.data_nodes r.addr) a.replicas) < mds.replica_count
    → task_of mds path a
      ≡ some (record {
        path = path;
        file_id = a.file_id;
        size = a.size;
        replicas = alive_replicas mds.data_nodes a.replicas;
      })
unfolding task_of
due_has_task mds path a stored settled unmarked too_few =
    let few : length (alive_replicas mds.data_nodes a.replicas) < mds.replica_count =
      rw (alive_replicas-filter mds.data_nodes a.replicas) too_few in
    ground (arith, stored, settled, unmarked, few)

-- A scan of a well-formed tree that finds fewer tasks than it may collect has missed no file: every
-- file of the tree that is neither pending, nor recovering, nor under repair, and of whose replicas
-- fewer than are wanted lie on registered nodes, has a task among those found. The fuel, an item for
-- each entry of the tree, is enough for that.
pub find_under_replicated_tasks-misses_none :
    (k : ℕ) (mds : MetadataServer) (path : String) (f : Entry)
    → IsTree mds.root
    → length (find_under_replicated_tasks k mds) < k
    → lookup mds path ≡ some f
    → is_dir f ≡ false
    → (attrs f).status ≢ status_pending
    → (attrs f).status ≢ status_recovering
    → contains mds.repairing (attrs f).file_id ≡ false
    → length (filter (λ r. contains mds.data_nodes r.addr) (attrs f).replicas) < mds.replica_count
    → contains (ids_of (find_under_replicated_tasks k mds)) (attrs f).file_id ≡ true
unfolding find_under_replicated_tasks lookup
find_under_replicated_tasks-misses_none k mds path f tree few here file stored settled unmarked
      too_few =
    scan-finds mds f file path _ (due_has_task mds path (attrs f) stored settled unmarked too_few)
      (entries mds.root) k ((mds.root, "/") ∷ []) (root-IsItem mds tree)
      (unfold weight in omega arith) few (inl (split_path path, here))
