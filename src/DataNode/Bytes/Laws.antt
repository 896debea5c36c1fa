-- ===== src/DataNode/Bytes/Laws.antt =====
-- The bytes after a read, a write and a truncation, one by one.
use fstorex.Base.{
  ℕ, false, zero, suc, ◌+◌, ◌-◌, ◌≡◌, refl, ◌∙◌, Option, none, some, List, [], ◌∷◌, ◌++◌, arith,
  ltb, leb, ◌&&◌, if◌then◌else◌, length, get_elem?, take, drop, replicate, length-append,
  length-take, length-drop, length-replicate, min, max,
}
use fstorex.DataNode.Bytes.{Bytes, padded, read_at, overwrite, resize}

module _ {ℓ} {A : Type ℓ} where
  pub get_elem?-append :
      (xs ys : List A) (i : ℕ)
      → get_elem? (xs ++ ys) i
        ≡ (if ltb i (length xs) then get_elem? xs i else get_elem? ys (i - length xs))
  get_elem?-append [] ys i = ground arith
  get_elem?-append (x ∷ xs) ys zero = ground arith
  get_elem?-append (x ∷ xs) ys (suc i) = ground (arith, get_elem?-append xs ys i)

  pub get_elem?-take :
      (n : ℕ) (xs : List A) (i : ℕ)
      → get_elem? (take n xs) i ≡ (if ltb i n then get_elem? xs i else none)
  get_elem?-take zero xs i = ground arith
  get_elem?-take (suc n) [] i = ground arith
  get_elem?-take (suc n) (x ∷ xs) zero = ground arith
  get_elem?-take (suc n) (x ∷ xs) (suc i) = ground (arith, get_elem?-take n xs i)

  pub get_elem?-drop :
      (n : ℕ) (xs : List A) (i : ℕ) → get_elem? (drop n xs) i ≡ get_elem? xs (n + i)
  get_elem?-drop zero xs i = ground arith
  get_elem?-drop (suc n) [] i = ground arith
  get_elem?-drop (suc n) (x ∷ xs) i = ground (arith, get_elem?-drop n xs i)

  pub get_elem?-replicate :
      (n : ℕ) (a : A) (i : ℕ) → get_elem? (replicate n a) i ≡ (if ltb i n then some a else none)
  get_elem?-replicate zero a i = ground arith
  get_elem?-replicate (suc n) a zero = ground arith
  get_elem?-replicate (suc n) a (suc i) = ground (arith, get_elem?-replicate n a i)

  pub get_elem?-beyond : (xs : List A) (i : ℕ) → ltb i (length xs) ≡ false → get_elem? xs i ≡ none
  get_elem?-beyond [] i h = refl
  get_elem?-beyond (x ∷ xs) zero h = ground arith
  get_elem?-beyond (x ∷ xs) (suc i) h = get_elem?-beyond xs i (ground (arith, h))

pub get_elem?-padded :
    (n : ℕ) (content : Bytes) (i : ℕ)
    → get_elem? (padded n content) i
      ≡ (if ltb i (length content) then get_elem? content i else if ltb i n then some 0 else none)
get_elem?-padded n content i =
    get_elem?-append content (replicate (n - length content) 0) i
    ∙ ground (arith, get_elem?-replicate {A = ℕ} (n - length content) 0 (i - length content))

pub length-padded : (n : ℕ) (content : Bytes) → length (padded n content) ≡ max n (length content)
length-padded n content = omega (
  arith,
  length-append content (replicate (n - length content) 0),
  length-replicate {A = ℕ} (n - length content) 0,
)

-- A read yields the bytes from its offset on, as many as there are within its length.
pub get_elem?-read_at :
    (content : Bytes) (off len i : ℕ)
    → get_elem? (read_at content off len) i
      ≡ (if ltb i len then get_elem? content (off + i) else none)
unfolding read_at
get_elem?-read_at content off len i =
    ground (arith, get_elem?-take len (drop off content) i, get_elem?-drop off content i)

pub length-read_at :
    (content : Bytes) (off len : ℕ)
    → length (read_at content off len) ≡ min len (length content - off)
unfolding read_at
length-read_at content off len =
    omega (arith, length-take len (drop off content), length-drop off content)

-- A truncation keeps the bytes below its size, and has zeros where there were none.
pub get_elem?-resize :
    (content : Bytes) (size i : ℕ)
    → get_elem? (resize content size) i ≡ (
        if ltb i size then if ltb i (length content) then get_elem? content i else some 0 else none)
unfolding resize
get_elem?-resize content size i =
    ground (arith, get_elem?-take size (padded size content) i, get_elem?-padded size content i)

pub length-resize : (content : Bytes) (size : ℕ) → length (resize content size) ≡ size
unfolding resize
length-resize content size =
    omega (arith, length-take size (padded size content), length-padded size content)

-- A byte of a file after a write.
abbrev pub after_write : Bytes → ℕ → Bytes → ℕ → Option ℕ
after_write content off bs i =
    if leb off i && ltb i (off + length bs)
    then get_elem? bs (i - off)
    else if ltb i (length content)
    then get_elem? content i
    else if ltb i off
    then some 0
    else none

module _ (content : Bytes) (off : ℕ) (bs : Bytes) where
  length-front : length (take off (padded off content)) ≡ off
  length-front = omega (arith, length-take off (padded off content), length-padded off content)

  get_elem?-tail :
      (i : ℕ)
      → get_elem? (bs ++ drop (off + length bs) content) i
        ≡ (if ltb i (length bs) then get_elem? bs i else get_elem? content (off + i))
  get_elem?-tail i = ground (
    arith,
    get_elem?-append bs (drop (off + length bs) content) i,
    get_elem?-drop (off + length bs) content (i - length bs),
  )

  get_elem?-pieces :
      (i : ℕ)
      → get_elem? (take off (padded off content) ++ (bs ++ drop (off + length bs) content)) i
        ≡ after_write content off bs i
  get_elem?-pieces i = ground (
    arith,
    length-front,
    get_elem?-append (take off (padded off content)) (bs ++ drop (off + length bs) content) i,
    get_elem?-take off (padded off content) i,
    get_elem?-padded off content i,
    get_elem?-tail (i - off),
    get_elem?-beyond content i,
  )

  pub get_elem?-overwrite :
      (i : ℕ) → get_elem? (overwrite content off bs) i ≡ after_write content off bs i
  unfolding overwrite
  get_elem?-overwrite i = get_elem?-pieces i

  length-pieces :
      length (take off (padded off content) ++ (bs ++ drop (off + length bs) content))
      ≡ max (length content) (off + length bs)
  length-pieces = omega (
    arith,
    length-front,
    length-append (take off (padded off content)) (bs ++ drop (off + length bs) content),
    length-append bs (drop (off + length bs) content),
    length-drop (off + length bs) content,
  )

  pub length-overwrite : length (overwrite content off bs) ≡ max (length content) (off + length bs)
  unfolding overwrite
  length-overwrite = length-pieces
