-- ===== src/DataNode/Replicate/Copies.antt =====
-- What a replication copies, and when it never ends.
use fstorex.Base.{
  ℕ, zero, suc, ◌+◌, ◌-◌, ◌*◌, ◌≤◌, ◌<◌, String, ◌≡◌, refl, ap, ◌∙◌, Bool, true, false, none, some,
  List, [], ◌∷◌, ltb, arith, string_eq, length, take, get_elem?, length-take, ◌⊎◌, Bool-cases, inl,
  inr,
}
use fstorex.Base.Dict.{lookup, insert}
use fstorex.Types.{pos, Time}
use fstorex.DataNode.Bytes.{Bytes, read_at, write_at, overwrite}
use fstorex.DataNode.Bytes.Laws.{
  get_elem?-read_at, length-read_at, get_elem?-overwrite, get_elem?-take, get_elem?-beyond,
}
use fstorex.DataNode.Paths.{resolve_path}
use fstorex.DataNode.Disk.{File, DataNode, no_faults, ok}
use fstorex.DataNode.Service.{range_read, on_disk}
use fstorex.DataNode.Replicate.{
  ReplicateFileArgs, Source, replicate_chunk_size, chunk_len, replicate_loop, replicate_file,
}

-- Lists with the same elements at every index are equal.
get_elem?-ext {ℓ} :
    {A : Type ℓ} (xs ys : List A) → ((i : ℕ) → get_elem? xs i ≡ get_elem? ys i) → xs ≡ ys
get_elem?-ext [] [] same = refl
get_elem?-ext [] (y ∷ ys) same = ground (arith, same 0)
get_elem?-ext (x ∷ xs) [] same = ground (arith, same 0)
get_elem?-ext (x ∷ xs) (y ∷ ys) same =
    ground (arith, same 0, get_elem?-ext xs ys (λ i. same (suc i)))

-- A chunk that is read behind what has been copied extends the copy.
overwrite-read_at :
    (content : Bytes) (off k : ℕ)
    → off ≤ length content
    → overwrite (take off content) off (read_at content off k) ≡ take (off + k) content
overwrite-read_at content off k within =
    get_elem?-ext (overwrite (take off content) off (read_at content off k))
      (take (off + k) content)
      λ i. ground (
        arith,
        within,
        get_elem?-overwrite (take off content) off (read_at content off k) i,
        length-read_at content off k,
        get_elem?-read_at content off k (i - off),
        get_elem?-take off content i,
        length-take off content,
        get_elem?-take (off + k) content i,
        get_elem?-beyond content i,
      )

write_at-overwrite :
    (content : Bytes) (off : ℕ) (bs : Bytes)
    → 0 < length bs
    → write_at content off bs ≡ overwrite content off bs
write_at-overwrite content off [] some_bytes = ground (arith, some_bytes)
write_at-overwrite content off (b ∷ bs) some_bytes = refl

chunk_len-within :
    (offset size : ℕ)
    → offset < size
    → (0 < chunk_len offset size)
      × (offset + chunk_len offset size ≤ size)
      × ((offset + chunk_len offset size ≡ size) ⊎ (chunk_len offset size ≡ replicate_chunk_size))
unfolding chunk_len
chunk_len-within offset size more = ground (arith, more)

-- A source that answers every call with the bytes of a file.
module _ (source : Source) (path : String) (content : Bytes)
    (reads : (off len : ℕ)
      → (eof : Bool) × (source (record { path = path; offset = pos off; length = pos len })
          ≡ ok (record { bytes = read_at content off len; eof = eof }))) where
  -- One turn of the loop.
  replicate_loop-step :
      (size fuel offset : ℕ) (copy : Bytes)
      → ltb offset size ≡ true
      → replicate_loop source no_faults path size (suc fuel) offset copy
        ≡ replicate_loop source no_faults path size fuel
            (offset + length (read_at content offset (chunk_len offset size)))
            (write_at copy offset (read_at content offset (chunk_len offset size)))
  unfolding replicate_loop
  replicate_loop-step size fuel offset copy more =
      ground (arith, more, (reads offset (chunk_len offset size)).1)

  replicate_loop-over :
      (size fuel offset : ℕ) (copy : Bytes)
      → ltb offset size ≡ false
      → replicate_loop source no_faults path size (suc fuel) offset copy ≡ some (copy, ok true)
  unfolding replicate_loop
  replicate_loop-over size fuel offset copy over = ground (arith, over)

  replicate_loop-copies :
      (size fuel offset : ℕ)
      → size ≤ length content
      → offset ≤ size
      → size + replicate_chunk_size ≤ offset + fuel * replicate_chunk_size
      → replicate_loop source no_faults path size fuel offset (take offset content)
        ≡ some (take size content, ok true)
  replicate_loop-copies size zero offset within below enough = ground (arith, below, enough)
  replicate_loop-copies size (suc fuel) offset within below enough =
      elim (Bool-cases (ltb offset size)) [
        | inl more ↦
            let k : ℕ = chunk_len offset size in
            let bs : Bytes = read_at content offset k in
            let (some_bytes, inside, full) = chunk_len-within offset size (ground (arith, more)) in
            let all_read : length bs ≡ k =
              omega (arith, length-read_at content offset k, within, inside) in
            let copied : write_at (take offset content) offset bs ≡ take (offset + k) content =
              write_at-overwrite (take offset content) offset bs
                (omega (arith, all_read, some_bytes))
              ∙ overwrite-read_at content offset k (omega (arith, within, below)) in
            replicate_loop-step size fuel offset (take offset content) more
            ∙ rw (copied, all_read)
                (replicate_loop-copies size fuel (offset + k) within inside
                  (omega (arith, enough, full, inside)))
        | inr over ↦
            let whole : offset ≡ size = ground (arith, over, below) in
            replicate_loop-over size fuel offset (take offset content) over
            ∙ ap (λ n. some (take n content, ok true)) whole
      ]

  -- A source that is shorter than the size asked for never lets the loop end.
  replicate_loop-stuck :
      (size fuel offset : ℕ) (copy : Bytes)
      → length content < size
      → offset ≤ length content
      → replicate_loop source no_faults path size fuel offset copy ≡ none
  unfolding replicate_loop
  replicate_loop-stuck size zero offset copy short below = refl
  replicate_loop-stuck size (suc fuel) offset copy short below =
      let k : ℕ = chunk_len offset size in
      replicate_loop-step size fuel offset copy (ground (arith, short, below))
      ∙ replicate_loop-stuck size fuel (offset + length (read_at content offset k))
          (write_at copy offset (read_at content offset k)) short
          (omega (arith, length-read_at content offset k, below))

module _ (source_node dn : DataNode) (now : Time)
    (source_path source_real target_path target_real : String) (file : File) (size : ℕ)
    (here : resolve_path source_node.data_dir source_path ≡ some source_real)
    (there : lookup source_real source_node.disk ≡ some file)
    (target : resolve_path dn.data_dir target_path ≡ some target_real) where
  -- The remote call of a source node that answers.
  abbrev pub source_of : Source
  source_of args = range_read no_faults args source_node

  source_of-reads :
      (off len : ℕ)
      → (eof : Bool) × (source_of
            (record { path = source_path; offset = pos off; length = pos len })
          ≡ ok (record { bytes = read_at file.content off len; eof = eof }))
  unfolding range_read
  source_of-reads off len =
      (ltb (length (read_at file.content off len)) len, ground (arith, here, there))

  abbrev pub replicate_args : ReplicateFileArgs
  replicate_args = record {
    source_remote_path = source_path;
    target_remote_path = target_path;
    file_size = pos size;
  }

  -- A replication whose calls succeed ends, when the source's file has the size asked for, and
  -- leaves that much of it at the target.
  pub replicate_file-copies :
      (fuel : ℕ)
      → size ≤ length file.content
      → size + replicate_chunk_size ≤ fuel * replicate_chunk_size
      → replicate_file fuel (some source_of) no_faults now replicate_args dn
        ≡ some (
          on_disk dn (
              insert target_real
                (record { content = take size file.content; mod_time = now })
                dn.disk),
          ok true,
        )
  unfolding replicate_file
  replicate_file-copies fuel within enough = ground (
    arith,
    target,
    replicate_loop-copies source_of source_path file.content source_of-reads size fuel 0 within
        (omega arith) (omega (arith, enough)),
  )

  -- A replication of a file that has become shorter than the size asked for never ends, although
  -- every call succeeds.
  pub replicate_file-diverges :
      (fuel : ℕ)
      → length file.content < size
      → replicate_file fuel (some source_of) no_faults now replicate_args dn ≡ none
  unfolding replicate_file
  replicate_file-diverges fuel short = ground (
    arith,
    target,
    replicate_loop-stuck source_of source_path file.content source_of-reads size fuel 0 [] short
        (omega arith),
  )
