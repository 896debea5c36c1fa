-- ===== src/DataNode/Service/Untouched.antt =====
-- The files that a write of a range, a truncation and a deletion leave alone.
use fstorex.Base.{
  ℕ, suc, zero, String, ◌≡◌, ◌≢◌, some, arith, take, string_eq, Option-cases, inl, inr, ==_refl,
}
use fstorex.Base.Dict.{lookup, insert, lookup-insert, lookup-erase}
use fstorex.Types.{Time, ℤ, pos, negsuc}
use fstorex.DataNode.Bytes.{Bytes, resize}
use fstorex.DataNode.Paths.{resolve_path}
use fstorex.DataNode.Disk.{File, DataNode, Faults}
use fstorex.DataNode.Service.{partial_write, truncate, delete_data, opened, written}

module _ (f : Faults) (now : Time) (path real_path q : String) (dn : DataNode)
    (here : resolve_path dn.data_dir path ≡ some real_path) (differ : real_path ≢ q) where
  inserted : (file : File) → lookup q (insert real_path file dn.disk) ≡ lookup q dn.disk
  inserted file = ground (arith, differ, lookup-insert q real_path file dn.disk)

  inserted_twice :
      (file file' : File)
      → lookup q (insert real_path file (insert real_path file' dn.disk)) ≡ lookup q dn.disk
  inserted_twice file file' = ground (
    arith,
    differ,
    inserted file',
    lookup-insert q real_path file (insert real_path file' dn.disk),
  )

  partial_write-keeps :
      (offset : ℤ) (bs : Bytes)
      → lookup q
          (partial_write f now (record { path = path; offset = offset; bytes = bs }) dn).0.disk
        ≡ lookup q dn.disk
  unfolding partial_write
  partial_write-keeps (pos off) bs = ground (
    arith,
    here,
    inserted (written now off (take f.kept bs) (opened now real_path dn.disk)),
    inserted (written now off bs (opened now real_path dn.disk)),
  )
  partial_write-keeps (negsuc n) bs = ground (arith, here, inserted (opened now real_path dn.disk))

  resized : ℕ → File → File
  resized n file = record { content = resize file.content n; mod_time = now }

  truncate-keeps :
      (size : ℤ)
      → lookup q (truncate f now (record { path = path; size = size }) dn).0.disk ≡ lookup q dn.disk
  unfolding truncate resized
  truncate-keeps (negsuc n) = ground (arith, here)
  truncate-keeps (pos zero) = elim (Option-cases (lookup real_path dn.disk)) [
    | inl gone ↦ ground (arith, here, gone)
    | inr (file, there) ↦ ground (arith, here, there, inserted (resized 0 file))
  ]
  truncate-keeps (pos (suc n)) =
      let file : File = opened now real_path dn.disk in
      ground (
        arith,
        here,
        ==_refl real_path,
        inserted file,
        lookup-insert real_path real_path file dn.disk,
        inserted_twice (resized (suc n) file) file,
      )

  delete_data-keeps : lookup q (delete_data f path dn).0.disk ≡ lookup q dn.disk
  unfolding delete_data
  delete_data-keeps = ground (arith, here, differ, lookup-erase q real_path dn.disk)

  -- A write of a range, a truncation and a deletion leave the file at every other real path as it
  -- was, whether they succeed or fail.
  pub handlers-keep_others :
      (offset : ℤ) (bs : Bytes) (size : ℤ)
      → (lookup q
            (partial_write f now (record { path = path; offset = offset; bytes = bs }) dn).0.disk
          ≡ lookup q dn.disk)
        × (lookup q (truncate f now (record { path = path; size = size }) dn).0.disk
            ≡ lookup q dn.disk)
        × (lookup q (delete_data f path dn).0.disk ≡ lookup q dn.disk)
  handlers-keep_others offset bs size =
      (partial_write-keeps offset bs, truncate-keeps size, delete_data-keeps)
