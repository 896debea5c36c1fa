-- ===== src/Client/Handle/Reading.antt =====
-- What a read of an open file puts into its buffer.
use fstorex.Base.{
  ℕ, zero, suc, ◌+◌, ◌-◌, ◌≤◌, ◌<◌, min, String, ◌≡◌, refl, sym, ap, ◌∙◌, subst, Bool, Option, none,
  some, List, [], ◌∷◌, arith, length, ltb, if◌then◌else◌, take, drop, get_elem?, string_eq, All,
  Option-cases, inl, inr, ◌⊎◌, length-append, length-take, length-drop,
}
use mathlib.Core.Option.{some-injective}
use fstorex.Base.Dict.{lookup}
use fstorex.Types.{Replica, pos}
use fstorex.DataNode.Bytes.{Bytes, read_at}
use fstorex.DataNode.Bytes.Laws.{
  get_elem?-append, get_elem?-take, get_elem?-drop, get_elem?-read_at, length-read_at,
}
use fstorex.DataNode.Paths.{resolve_path}
use fstorex.DataNode.Disk.{File, DataNode, Faults, Reply, ok, err, panicked}
use fstorex.DataNode.Service.{RangeReadArgs, RangeReadReply, range_read}
use fstorex.Client.World.{
  World, Net, NodeContact, no_dial, lost_reply, served, returns, Result-cases,
}
use fstorex.Client.Calls.{ask_node, range_read_from}
use fstorex.Client.Handle.{ReadOut, filled, serial_from}

-- The bytes of a file that may be missing.
abbrev pub stored : Option File → Bytes
stored none = []
stored (some file) = file.content

-- A replica that can be reached holds these bytes.
abbrev pub Holds : World → Bytes → Replica → Type 0
Holds w content r =
    (dn : DataNode)
    → lookup r.addr w.nodes ≡ some dn
    → (real_path : String) → resolve_path dn.data_dir r.remote_path ≡ some real_path
    → stored (lookup real_path dn.disk) ≡ content

-- A call for a range is answered.
abbrev pub Answers : Net → World → ℕ → ℕ → ℕ → Replica → Type 0
Answers net w turn off len r =
    (got : Bytes × Bool) × (range_read_from net turn r off len w ≡ returns got)

-- The buffer has the file's bytes from the offset on as far as both reach, and is untouched
-- behind them; the end of the file is reported where the buffer reaches beyond it.
pub record IsReadOf (content : Bytes) (off : ℕ) (buf : Bytes) (out : ReadOut) : Type 0 where
  pub whole : length out.buf ≡ length buf
  pub counted : out.count ≡ min (length buf) (length content - off)
  pub bytes :
      (i : ℕ)
      → get_elem? out.buf i
        ≡ (if ltb i out.count then get_elem? content (off + i) else get_elem? buf i)
  pub ended : out.eof ≡ ltb (length content) (off + length buf)

abbrev pub range_of : Bytes → ℕ → ℕ → Bytes × Bool
range_of content off len = (read_at content off len, ltb (length content) (off + len))

take_all {ℓ} : {A : Type ℓ} (n : ℕ) (xs : List A) → length xs ≤ n → take n xs ≡ xs
take_all zero [] h = refl
take_all zero (x ∷ xs) h = absurd (omega (arith, h))
take_all (suc n) [] h = refl
take_all (suc n) (x ∷ xs) h = ap (◌∷◌ x) (take_all n xs (omega (arith, h)))

take-nil : (n : ℕ) → take {A = ℕ} n [] ≡ []
take-nil zero = refl
take-nil (suc n) = refl

drop-nil : (n : ℕ) → drop {A = ℕ} n [] ≡ []
drop-nil zero = refl
drop-nil (suc n) = refl

read_at-nil : (off len : ℕ) → read_at [] off len ≡ []
unfolding read_at
read_at-nil off len = rw (drop-nil off) (take-nil len)

range_read-Holds :
    (f : Faults) (dn : DataNode) (path : String) (content : Bytes) (off len : ℕ)
    (reply : RangeReadReply)
    → ((real_path : String)
        → resolve_path dn.data_dir path ≡ some real_path
        → stored (lookup real_path dn.disk) ≡ content)
    → 0 < len
    → range_read f (record { path = path; offset = pos off; length = pos len }) dn ≡ ok reply
    → (take len reply.bytes, reply.eof) ≡ range_of content off len
unfolding range_read
range_read-Holds f dn path content off len reply holds more answered =
    elim (Option-cases (resolve_path dn.data_dir path)) [
      | inl outside ↦ ground (arith, answered, outside)
      | inr (real_path, here) ↦ elim (Option-cases (lookup real_path dn.disk)) [
        | inl missing ↦
            let empty : [] ≡ content = sym (ap stored missing) ∙ holds real_path here in
            subst (λ c. (take len reply.bytes, reply.eof) ≡ range_of c off len) empty
              (ground (arith, answered, here, missing, read_at-nil off len, take-nil len))
        | inr (file, there) ↦
            let same : file.content ≡ content = sym (ap stored there) ∙ holds real_path here in
            subst (λ c. (take len reply.bytes, reply.eof) ≡ range_of c off len) same
              (ground (
                arith,
                answered,
                here,
                there,
                length-read_at file.content off len,
                take_all len (read_at file.content off len),
              ))
      ]
    ]

module _ (net : Net) (w : World) (turn off len : ℕ) (r : Replica) (content : Bytes)
    (got : Bytes × Bool) (dn : DataNode) (here : lookup r.addr w.nodes ≡ some dn)
    (holds : (real_path : String)
      → resolve_path dn.data_dir r.remote_path ≡ some real_path
      → stored (lookup real_path dn.disk) ≡ content)
    (more : 0 < len) (answered : range_read_from net turn r off len w ≡ returns got) where
  abbrev args : RangeReadArgs
  args = record { path = r.remote_path; offset = pos off; length = pos len }

  by_reply :
      (f : Faults) (reply : Reply RangeReadReply)
      → net.node turn r.addr ≡ served f
      → range_read f args dn ≡ reply
      → got ≡ range_of content off len
  unfolding range_read_from ask_node
  by_reply f (ok reply) called replied =
      let same : got ≡ (take len reply.bytes, reply.eof) =
        ground (arith, here, answered, called, replied) in
      same ∙ range_read-Holds f dn r.remote_path content off len reply holds more replied
  by_reply f (err e) called replied = ground (arith, here, answered, called, replied)
  by_reply f panicked called replied = ground (arith, here, answered, called, replied)

  by_contact : (c : NodeContact) → net.node turn r.addr ≡ c → got ≡ range_of content off len
  unfolding range_read_from ask_node
  by_contact no_dial called = ground (arith, here, answered, called)
  by_contact (lost_reply f) called = ground (arith, here, answered, called)
  by_contact (served f) called = by_reply f (range_read f args dn) called refl

pub range_read_from-Holds :
    (net : Net) (w : World) (turn off len : ℕ) (r : Replica) (content : Bytes) (got : Bytes × Bool)
    → Holds w content r
    → 0 < len
    → range_read_from net turn r off len w ≡ returns got
    → got ≡ range_of content off len
unfolding range_read_from ask_node
range_read_from-Holds net w turn off len r content got holds more answered =
    elim (Option-cases (lookup r.addr w.nodes)) [
      | inl gone ↦ ground (arith, answered, gone)
      | inr (dn, here) ↦
          by_contact net w turn off len r content got dn here (holds dn here) more answered
            (net.node turn r.addr) refl
    ]

pub filled-IsReadOf :
    (content : Bytes) (off : ℕ) (buf : Bytes)
    → IsReadOf content off buf (filled buf (range_of content off (length buf)))
filled-IsReadOf content off buf = record {
  whole = omega (
    arith,
    length-append (take (length buf) (read_at content off (length buf)))
        (drop (length (read_at content off (length buf))) buf),
    length-take (length buf) (read_at content off (length buf)),
    length-drop (length (read_at content off (length buf))) buf,
    length-read_at content off (length buf),
  );
  counted = length-read_at content off (length buf);
  bytes = λ i. ground (
    arith,
    get_elem?-append (take (length buf) (read_at content off (length buf)))
        (drop (length (read_at content off (length buf))) buf) i,
    length-take (length buf) (read_at content off (length buf)),
    length-read_at content off (length buf),
    get_elem?-take (length buf) (read_at content off (length buf)) i,
    get_elem?-read_at content off (length buf) i,
    get_elem?-drop (length (read_at content off (length buf))) buf
        (i - length (read_at content off (length buf))),
  );
  ended = refl;
}

-- Some replica of the list answers the call for a range.
abbrev pub SomeAnswers : Net → World → ℕ → ℕ → List Replica → Type 0
SomeAnswers net w off len [] = ⊥
SomeAnswers net w off len (r ∷ rs) = Answers net w 0 off len r ⊎ SomeAnswers net w off len rs

pub SomeAnswers-at :
    (net : Net) (w : World) (off len j : ℕ) (good : Replica) (replicas : List Replica)
    → get_elem? replicas j ≡ some good
    → Answers net w 0 off len good
    → SomeAnswers net w off len replicas
SomeAnswers-at net w off len j good [] here answers = cc
SomeAnswers-at net w off len zero good (r ∷ rs) here answers =
    inl (subst (Answers net w 0 off len) (sym (some-injective _ _ here)) answers)
SomeAnswers-at net w off len (suc j) good (r ∷ rs) here answers =
    inr (SomeAnswers-at net w off len j good rs here answers)

-- A read that goes from one replica to the next until one answers.
module _ (net : Net) (w : World) (content : Bytes) (buf : Bytes) (off : ℕ)
    (more : 0 < length buf) where
  pub serial_from-reads :
      (replicas : ℕ) (last_err : String) (rs : List Replica)
      → All (Holds w content) rs
      → SomeAnswers net w off (length buf) rs
      → (out : ReadOut) × (serial_from net w replicas buf off last_err rs ≡ returns out)
        × IsReadOf content off buf out
  unfolding serial_from
  serial_from-reads replicas last_err [] holds answers = absurd answers
  serial_from-reads replicas last_err (r ∷ rs) holds answers =
      elim (Result-cases (range_read_from net 0 r off (length buf) w)) [
        | inl (got, answered) ↦
            let right =
              range_read_from-Holds net w 0 off (length buf) r content got holds.0 more answered in
            (
              filled buf got,
              ground (arith, answered),
              subst (λ g. IsReadOf content off buf (filled buf g)) (sym right)
                  (filled-IsReadOf content off buf),
            )
        | inr (text, failed) ↦ elim answers [
          | inl (got, answered) ↦ ground (arith, failed, answered)
          | inr later ↦ rw (failed, serial_from) (serial_from-reads replicas text rs holds.1 later)
        ]
      ]
