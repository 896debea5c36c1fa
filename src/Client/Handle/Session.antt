-- ===== src/Client/Handle/Session.antt =====
-- A sequence of writes and truncations through an open file, against one array of bytes.
use fstorex.Base.{
  ℕ, ◌+◌, ◌≡◌, refl, sym, ap, ◌∙◌, subst, Bool, some, List, [], ◌∷◌, map, arith, ◌==◌, string_eq,
  nat_eq, All, Bool-cases, inl, inr, length, get_elem?, ◌<◌,
}
use fstorex.Types.{ℤ, pos, Replica, FileLocation, int64, ltb_ℤ}
use fstorex.Metadata.Machine.Registry.{AreDistinct}
use fstorex.DataNode.Bytes.{Bytes, write_at, resize}
use fstorex.Client.World.{World, Net, Result, returns, Result-cases}
use fstorex.Client.Calls.{update_size_at, partial_write_to, file_location}
use fstorex.Client.Handle.{
  write_at as write_handle, FileHandle, ReadOut, read_at, on_replicas, failures,
  truncate_all_replicas, truncate_handle,
}
use fstorex.Client.Handle.Reading.{Holds, Answers, IsReadOf}
use fstorex.Client.Handle.Parallel.{read_at-IsReadOf}
use fstorex.Client.Handle.Replicas.{addr_of, on_replicas-turn}
use fstorex.Client.Handle.Writing.{write-Turns}
use fstorex.Client.Handle.Updates.{update_size_at-nodes, Holds-nodes, truncate_all_replicas-Holds}

-- What an operation that succeeds does to the replicas and to the handle.
abbrev Turned : FileHandle → Bytes → World × FileHandle → Type 0
Turned fh content (w, fh') = All (Holds w content) fh.replicas × (fh'.replicas ≡ fh.replicas)

module _ (net : Net) (fh : FileHandle) (w : World) (old : Bytes)
    (distinct : AreDistinct (map addr_of fh.replicas)) (holds : All (Holds w old) fh.replicas) where
  write_handle-Turned :
      (off n : ℕ) (bs : Bytes)
      → (write_handle net fh bs (pos off) w).1 ≡ returns n
      → Turned fh (write_at old off bs) (write_handle net fh bs (pos off) w).0
  unfolding write_handle
  write_handle-Turned off n bs worked =
      let call = λ (r : Replica) (v : World). partial_write_to net r off bs v in
      let after : World = (on_replicas call fh.replicas w).0 in
      let size : ℤ = int64 (off + length bs) in
      elim (Bool-cases (length fh.replicas == 0)) [
        | inl none_left ↦ ground (arith, none_left, worked)
        | inr replicated ↦ elim (Bool-cases (failures (on_replicas call fh.replicas w).1 == 0)) [
          | inr some_failed ↦ ground (arith, replicated, some_failed, worked)
          | inl all ↦
              let turned =
                on_replicas-turn call old (write_at old off bs) (write-Turns net old off bs)
                  fh.replicas w distinct holds (ground (arith, all)) in
              elim (Bool-cases (ltb_ℤ fh.size size)) [
                | inr shorter ↦ rw (replicated, all, shorter) (turned, refl)
                | inl longer ↦
                    rw (replicated, all, longer)
                      (
                        Holds-nodes after
                            (update_size_at net fh.client.mds_addr fh.path size after).0
                            (write_at old off bs) fh.replicas
                            (update_size_at-nodes net fh.client.mds_addr fh.path size after) turned,
                        refl,
                      )
              ]
        ]
      ]

  truncate_handle-Turned :
      (size : ℕ) (loc : FileLocation) (b : Bool)
      → file_location net fh.client.mds_addr fh.path w ≡ returns loc
      → loc.replicas ≡ fh.replicas
      → (truncate_handle net fh (pos size) w).1 ≡ returns b
      → Turned fh (resize old size) (truncate_handle net fh (pos size) w).0
  unfolding truncate_handle
  truncate_handle-Turned size loc b located same worked =
      let cut : World × Result Bool =
        truncate_all_replicas net fh.client.mds_addr fh.path (pos size) w in
      let updated : World × Result Bool =
        update_size_at net fh.client.mds_addr fh.path (pos size) cut.0 in
      elim (Result-cases cut.1) [
        | inr (text, failed) ↦ ground (arith, failed, worked)
        | inl (c, cut_all) ↦
            let turned = subst (All (Holds cut.0 (resize old size))) same (
              truncate_all_replicas-Holds net fh.client.mds_addr fh.path w old size c loc located
                (subst (λ rs. AreDistinct (map addr_of rs)) (sym same) distinct)
                (subst (All (Holds w old)) (sym same) holds) cut_all) in
            elim (Result-cases updated.1) [
              | inr (text, refused) ↦ ground (arith, cut_all, refused, worked)
              | inl (d, accepted) ↦
                  rw (cut_all, accepted)
                    (
                      Holds-nodes cut.0 updated.0 (resize old size) fh.replicas
                          (update_size_at-nodes net fh.client.mds_addr fh.path (pos size) cut.0)
                          turned,
                      refl,
                    )
            ]
      ]

-- A change of a file, and what it does to an array of bytes.
pub data Change : Type 0 where
  write_bytes : ℕ → Bytes → Change
  cut_to : ℕ → Change

abbrev pub effect : Change → Bytes → Bytes
effect (write_bytes off bs) content = write_at content off bs
effect (cut_to size) content = resize content size

abbrev pub effects : List Change → Bytes → Bytes
effects [] content = content
effects (c ∷ cs) content = effects cs (effect c content)

-- The changes were made through the handle, each with success. A truncation asks for the replicas
-- again, by the handle's path: they are still those of the handle.
pub data Made : World → FileHandle → World → FileHandle → List Change → Type 0 where
  made_none : {w : World} {fh : FileHandle} → Made w fh w fh []
  made_write :
      {w w' : World} {fh fh' : FileHandle} {cs : List Change} (net : Net) (off n : ℕ) (bs : Bytes)
      → (write_handle net fh bs (pos off) w).1 ≡ returns n
      → Made
          (write_handle net fh bs (pos off) w).0.0
          (write_handle net fh bs (pos off) w).0.1
          w'
          fh'
          cs
      → Made w fh w' fh' (write_bytes off bs ∷ cs)
  made_cut :
      {w w' : World} {fh fh' : FileHandle} {cs : List Change} (net : Net) (size : ℕ)
      (loc : FileLocation) (b : Bool)
      → file_location net fh.client.mds_addr fh.path w ≡ returns loc
      → loc.replicas ≡ fh.replicas
      → (truncate_handle net fh (pos size) w).1 ≡ returns b
      → Made
          (truncate_handle net fh (pos size) w).0.0
          (truncate_handle net fh (pos size) w).0.1
          w'
          fh'
          cs
      → Made w fh w' fh' (cut_to size ∷ cs)

Made-Turned :
    {w w' : World} {fh fh' : FileHandle} {cs : List Change} (content : Bytes)
    → Made w fh w' fh' cs
    → AreDistinct (map addr_of fh.replicas)
    → All (Holds w content) fh.replicas
    → All (Holds w' (effects cs content)) fh'.replicas × (fh'.replicas ≡ fh.replicas)
Made-Turned content made_none distinct holds = (holds, refl)
Made-Turned {w} {fh = fh} content (made_write net off n bs worked rest) distinct holds =
    let (turned, same) = write_handle-Turned net fh w content distinct holds off n bs worked in
    let after : FileHandle = (write_handle net fh bs (pos off) w).0.1 in
    let later =
      Made-Turned (write_at content off bs) rest
        (subst (λ rs. AreDistinct (map addr_of rs)) (sym same) distinct)
        (subst (All (Holds (write_handle net fh bs (pos off) w).0.0 (write_at content off bs)))
          (sym same) turned) in
    (later.0, later.1 ∙ same)
Made-Turned {w} {fh = fh} content (made_cut net size loc b located kept worked rest) distinct
      holds =
    let (turned, same) =
      truncate_handle-Turned net fh w content distinct holds size loc b located kept worked in
    let later =
      Made-Turned (resize content size) rest
        (subst (λ rs. AreDistinct (map addr_of rs)) (sym same) distinct)
        (subst (All (Holds (truncate_handle net fh (pos size) w).0.0 (resize content size)))
          (sym same) turned) in
    (later.0, later.1 ∙ same)

-- An open file on replicas at different addresses that hold the same bytes behaves as one array of
-- bytes: after any sequence of writes and truncations that succeed, where the location that a
-- truncation asks for is still the handle's, a read through the handle finds what the sequence makes
-- of the bytes, as long as one replica answers every call.
pub session-refines :
    {w w' : World} {fh fh' : FileHandle} {cs : List Change} (content : Bytes) (net : Net) (j : ℕ)
    (good : Replica) (buf : Bytes) (off : ℕ)
    → Made w fh w' fh' cs
    → AreDistinct (map addr_of fh.replicas)
    → All (Holds w content) fh.replicas
    → get_elem? fh.replicas j ≡ some good
    → ((turn at len : ℕ) → Answers net w' turn at len good)
    → 0 < length buf
    → (out : ReadOut) × (read_at net w' fh' buf (pos off) ≡ returns out)
      × IsReadOf (effects cs content) off buf out
session-refines {w' = w'} {fh' = fh'} {cs = cs} content net j good buf off made distinct holds
      placed always more =
    let (turned, same) = Made-Turned content made distinct holds in
    read_at-IsReadOf net w' fh' (effects cs content) j good buf off turned
      (ap (λ rs. get_elem? rs j) same ∙ placed) always more
