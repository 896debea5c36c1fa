-- ===== src/Client/Handle/Joined.antt =====
-- Reads that stand one behind the other.
use fstorex.Base.{ℕ, ◌+◌, ◌-◌, false, ◌||◌, [], ◌++◌, arith, length, nat_eq, length-append}
use mathlib.Core.List.{append-nil}
use fstorex.DataNode.Bytes.{Bytes}
use fstorex.DataNode.Bytes.Laws.{get_elem?-append}
use fstorex.Client.Handle.{ReadOut}
use fstorex.Client.Handle.Reading.{IsReadOf}

-- Two reads that stand one behind the other make one.
abbrev pub joined : ReadOut → ReadOut → ReadOut
joined a b = record { buf = a.buf ++ b.buf; count = a.count + b.count; eof = a.eof || b.eof }

pub joined-IsReadOf :
    (content : Bytes) (off : ℕ) (buf buf' : Bytes) (a b : ReadOut)
    → IsReadOf content off buf a
    → IsReadOf content (off + length buf) buf' b
    → IsReadOf content off (buf ++ buf') (joined a b)
joined-IsReadOf content off buf buf' a b ra rb = record {
  whole = omega (arith, ra.whole, rb.whole, length-append a.buf b.buf, length-append buf buf');
  counted = omega (arith, ra.counted, rb.counted, length-append buf buf');
  bytes = λ i. ground (
    arith,
    ra.whole,
    ra.counted,
    rb.counted,
    get_elem?-append a.buf b.buf i,
    get_elem?-append buf buf' i,
    ra.bytes i,
    rb.bytes (i - length buf),
  );
  ended = ground (arith, ra.ended, rb.ended, length-append buf buf');
}

pub alone-IsReadOf :
    (content : Bytes) (off : ℕ) (buf : Bytes) (a : ReadOut)
    → IsReadOf content off buf a
    → IsReadOf content off buf (joined a (record { buf = []; count = 0; eof = false }))
alone-IsReadOf content off buf a ra = record {
  whole = omega (arith, ra.whole, length-append a.buf []);
  counted = omega (arith, ra.counted);
  bytes = λ i. ground (arith, ra.bytes i, append-nil a.buf);
  ended = ground (arith, ra.ended);
}
