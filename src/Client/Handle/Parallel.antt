-- ===== src/Client/Handle/Parallel.antt =====
-- A read that is split over the replicas.
use fstorex.Base.{
  ℕ, zero, suc, ◌+◌, ◌-◌, ◌*◌, ◌/◌, ◌%◌, ◌≤◌, ◌<◌, String, ◌≡◌, refl, sym, ap, ◌∙◌, subst, false,
  ◌||◌, some, List, [], arith, length, ltb, ◌==◌, take, drop, get_elem?, nat_eq, All, All-at,
  get_elem?-within, take-append-drop, dec_lt, if_both, inl, inr, length-take, length-drop,
}
use native.Mathlib.Nat.{suc-mul, mul_comm, div-mul-le_self, mod-lt, mod-eq_of_lt, mod-eq-sub-mod}
use fstorex.Types.{Replica, pos}
use fstorex.DataNode.Bytes.{Bytes}
use fstorex.DataNode.Bytes.Laws.{get_elem?-beyond}
use fstorex.Client.World.{World, Net, Result, returns, Result-cases}
use fstorex.Client.Calls.{range_read_from}
use fstorex.Client.Handle.{
  FileHandle, ReadOut, filled, segment_tries, read_segment, segment_results, gather,
  read_at_parallel, read_at_serial, read_at, min_parallel_read_size,
}
use fstorex.Client.Handle.Reading.{
  Holds, Answers, IsReadOf, range_read_from-Holds, filled-IsReadOf, SomeAnswers, serial_from-reads,
  SomeAnswers-at,
}
use fstorex.Client.Handle.Joined.{joined, joined-IsReadOf, alone-IsReadOf}

module _ (net : Net) (w : World) (content : Bytes) (replicas : List Replica)
    (holds : All (Holds w content) replicas) (j : ℕ) (good : Replica)
    (placed : get_elem? replicas j ≡ some good)
    (always : (turn off len : ℕ) → Answers net w turn off len good) where
  segment_tries-reads :
      (buf : Bytes) (off start turns k t : ℕ) (last_err : String)
      → 0 < length buf
      → k ≤ t
      → t < k + turns
      → (start + t) % length replicas ≡ j
      → (out : ReadOut) × (segment_tries net w replicas buf off start turns k last_err
          ≡ returns out)
        × IsReadOf content off buf out
  unfolding segment_tries
  segment_tries-reads buf off start zero k t last_err more from upto meets =
      absurd (omega (arith, from, upto))
  segment_tries-reads buf off start (suc turns) k t last_err more from upto meets =
      let n : ℕ = length replicas in
      let idx : ℕ = (start + k) % n in
      let some_replica : 0 < n = ground (arith, placed, get_elem?-beyond replicas j) in
      let (r, here) = get_elem?-within replicas idx (mod-lt (start + k) some_replica) in
      elim (Result-cases (range_read_from net start r off (length buf) w)) [
        | inl (got, answered) ↦
            let right =
              range_read_from-Holds net w start off (length buf) r content got
                (All-at (Holds w content) replicas idx r holds here) more answered in
            (
              filled buf got,
              ground (arith, here, answered),
              subst (λ g. IsReadOf content off buf (filled buf g)) (sym right)
                  (filled-IsReadOf content off buf),
            )
        | inr (text, failed) ↦ elim (dec_lt k t) [
          | yes later ↦
              rw (here, failed, segment_tries)
                (segment_tries-reads buf off start turns (k + 1) t text more (omega (arith, later))
                  (omega (arith, upto)) meets)
          | no now ↦
              let same : k ≡ t = omega (arith, now, from) in
              let (got, answered) = always start off (length buf) in
              ground (arith, placed, here, failed, answered, same, meets)
        ]
      ]

  -- The good replica comes round in some turn of every segment.
  turn_of :
      (start : ℕ)
      → start < length replicas
      → (t : ℕ) × (t < length replicas) × ((start + t) % length replicas ≡ j)
  turn_of start first =
      let n : ℕ = length replicas in
      let within : j < n = ground (arith, placed, get_elem?-beyond replicas j) in
      elim (dec_lt j start) [
        | yes before ↦ (
          j + n - start,
          omega (arith, before, within, first),
          (let again : start + (j + n - start) ≡ n + j = omega (arith, before, first) in
              ap (λ m. m % n) again
              ∙ mod-eq-sub-mod (omega arith)
              ∙ ap (λ m. m % n) (let back : n + j - n ≡ j = omega arith in back)
              ∙ mod-eq_of_lt within),
        )
        | no behind ↦ (
          j - start,
          omega (arith, within),
          (let there : start + (j - start) ≡ j = omega (arith, behind) in
              ap (λ m. m % n) there ∙ mod-eq_of_lt within),
        )
      ]

  read_segment-reads :
      (buf : Bytes) (off start : ℕ)
      → 0 < length buf
      → start < length replicas
      → (out : ReadOut) × (read_segment net w replicas buf off start ≡ returns out)
        × IsReadOf content off buf out
  read_segment-reads buf off start more first =
      let (t, upto, meets) = turn_of start first in
      segment_tries-reads buf off start (length replicas) 0 t "" more (omega arith)
        (omega (arith, upto)) meets

  segment_results-reads :
      (seg_size k idx off i : ℕ) (buf : Bytes)
      → 0 < seg_size
      → idx + suc k ≤ length replicas
      → k * seg_size < length buf
      → (out : ReadOut) × (gather i (segment_results net w replicas seg_size (suc k) idx off buf)
          ≡ returns out)
        × IsReadOf content off buf out
  unfolding segment_results gather
  segment_results-reads seg_size zero idx off i buf some_bytes room more =
      let (out, answered, right) =
        read_segment-reads buf off idx (omega (arith, more)) (omega (arith, room)) in
      (
        joined out (record { buf = []; count = 0; eof = false }),
        rw answered,
        alone-IsReadOf content off buf out right,
      )
  segment_results-reads seg_size (suc k) idx off i buf some_bytes room more =
      let front : Bytes = take seg_size buf in
      let back : Bytes = drop seg_size buf in
      let long : suc k * seg_size ≡ seg_size + k * seg_size = suc-mul k seg_size ∙ omega arith in
      let front_length : length front ≡ seg_size =
        omega (arith, long, more, length-take seg_size buf) in
      let (out, answered, right) =
        read_segment-reads front off idx (omega (arith, some_bytes, front_length))
          (omega (arith, room)) in
      let (rest, gathered, right') =
        segment_results-reads seg_size k (idx + 1) (off + seg_size) (i + 1) back some_bytes
          (omega (arith, room)) (omega (arith, long, more, length-drop seg_size buf)) in
      (
        joined out rest,
        rw (answered, gathered) refl,
        subst (λ b. IsReadOf content off b (joined out rest)) (take-append-drop seg_size buf)
            (joined-IsReadOf content off front back out rest right
              (subst (λ m. IsReadOf content (off + m) back rest) (sym front_length) right')),
      )

  some_answers : (off len : ℕ) → SomeAnswers net w off len replicas
  some_answers off len = SomeAnswers-at net w off len j good replicas placed (always 0 off len)

  abbrev ReadsInto : Bytes → ℕ → Result ReadOut → Type 0
  ReadsInto buf off r = (out : ReadOut) × (r ≡ returns out) × IsReadOf content off buf out

  segments-ReadsInto :
      (buf : Bytes) (off : ℕ)
      → (length buf / length replicas == 0) ≡ false
      → ReadsInto buf off (
          gather 0 (
            segment_results net w replicas
              (length buf / length replicas)
              (length replicas)
              0
              off
              buf))
  segments-ReadsInto buf off split =
      let n : ℕ = length replicas in
      let seg_size : ℕ = length buf / n in
      let last : n ≡ suc (n - 1) = ground (arith, placed, get_elem?-beyond replicas j) in
      let some_bytes : 0 < seg_size = ground (arith, split) in
      let fits : seg_size + (n - 1) * seg_size ≤ length buf =
        subst (λ m. m ≤ length buf)
          (mul_comm seg_size n
            ∙ ap (λ m. m * seg_size) last
            ∙ suc-mul (n - 1) seg_size
            ∙ omega arith)
          (div-mul-le_self (length buf) n) in
      subst
        (λ m. ReadsInto buf off (gather 0 (segment_results net w replicas seg_size m 0 off buf)))
        (sym last)
        (segment_results-reads seg_size (n - 1) 0 off 0 buf some_bytes (omega (arith, last))
          (omega (arith, fits, some_bytes)))

-- A read of an open file succeeds when some replica answers every call, whatever the others do,
-- where the replicas that can be reached hold the same bytes: its buffer has the file's bytes from
-- the offset on, and the end of the file is reported where the buffer reaches beyond it. Whether
-- the read goes to one replica or is split over all of them makes no difference.
pub read_at-IsReadOf :
    (net : Net) (w : World) (fh : FileHandle) (content : Bytes) (j : ℕ) (good : Replica)
    (buf : Bytes) (off : ℕ)
    → All (Holds w content) fh.replicas
    → get_elem? fh.replicas j ≡ some good
    → ((turn off len : ℕ) → Answers net w turn off len good)
    → 0 < length buf
    → (out : ReadOut) × (read_at net w fh buf (pos off) ≡ returns out)
      × IsReadOf content off buf out
unfolding read_at read_at_parallel
read_at-IsReadOf net w fh content j good buf off holds placed always more =
    if_both Q (length fh.replicas == 0)
      (λ none_left. ground (arith, none_left, placed, get_elem?-beyond fh.replicas j))
      λ _.
        if_both Q (length buf == 0) (λ empty. absurd (ground (arith, empty, more)))
          λ _.
            if_both Q (length fh.replicas == 1 || ltb (length buf) min_parallel_read_size)
              (λ _. serial)
              λ _.
                if_both Q (length buf / length fh.replicas == 0) (λ _. serial)
                  λ split.
                    let (out, gathered, right) =
                      segments-ReadsInto net w content fh.replicas holds j good placed always buf
                        off split in
                    (
                      record out { eof = out.eof || ltb out.count (length buf) },
                      rw gathered,
                      record {
                        whole = right.whole;
                        counted = right.counted;
                        bytes = right.bytes;
                        ended = ground (arith, right.ended, right.counted);
                      },
                    )
  where
    Q : Result ReadOut → Type 0
    Q r = (out : ReadOut) × (r ≡ returns out) × IsReadOf content off buf out

    serial : Q (read_at_serial net w fh buf off)
    serial =
        serial_from-reads net w content buf off more (length fh.replicas) "" fh.replicas holds
          (some_answers net w content fh.replicas holds j good placed always off (length buf))
