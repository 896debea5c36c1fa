-- ===== src/DataNode/Bytes.antt =====
-- What `File.ReadAt`, `File.WriteAt` and `os.Truncate` do to the bytes of a file, as
-- internal/datanode/datanode.go uses them. A byte is a number.
pub mod Laws
use fstorex.Base.{ℕ, ◌+◌, ◌-◌, List, [], ◌∷◌, ◌++◌, length, take, drop, replicate}

abbrev pub Bytes : Type 0
Bytes = List ℕ

-- The bytes, with zeros behind them up to a length.
abbrev pub padded : ℕ → Bytes → Bytes
padded n content = content ++ replicate (n - length content) 0

-- `ReadAt` fills a buffer of `len` bytes with what the file has there.
unfoldable pub read_at : Bytes → ℕ → ℕ → Bytes
read_at content off len = take len (drop off content)

-- The bytes with others in place of those from an offset on.
unfoldable pub overwrite : Bytes → ℕ → Bytes → Bytes
overwrite content off bs = take off (padded off content) ++ (bs ++ drop (off + length bs) content)

-- `WriteAt` of no bytes makes no system call, and so does not extend the file.
abbrev pub write_at : Bytes → ℕ → Bytes → Bytes
write_at content off [] = content
write_at content off (b ∷ bs) = overwrite content off (b ∷ bs)

-- `os.Truncate`
unfoldable pub resize : Bytes → ℕ → Bytes
resize content size = take size (padded size content)
