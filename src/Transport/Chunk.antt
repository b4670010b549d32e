-- ===== src/Transport/Chunk.antt =====
-- The chunks of transport/vmess/chunk.go over the connections of Socks5/Stream: each one is its
-- length in two bytes and its bytes.
use rule_base_proxy.Common.{
  Option, Text, [], drop, if◌then◌else◌, leb, length, ltb, none, some, suc, take, zero, ℕ, ◌%◌, ◌*◌,
  ◌++◌, ◌+◌, ◌/◌, ◌==◌, ◌∷◌,
}
use rule_base_proxy.Socks5.Stream.{short_buffer, Io, and_then, done, fail, read_full, write}

abbrev pub chunk_size : ℕ
chunk_size = 16384

-- `maxSize`
abbrev pub max_size : ℕ
max_size = 17408

-- `chunkReader`; `buf` is nil or a buffer that is read from `offset` on.
pub record ChunkReader : Type 0 where
  pub buf : Option Text
  pub offset : ℕ

abbrev pub new_chunk_reader : ChunkReader
new_chunk_reader = record { buf = none; offset = 0 }

-- `binary.BigEndian.Uint16`
unfoldable pub uint16 : Text → ℕ
uint16 (a ∷ b ∷ _) = a * 256 + b
uint16 _ = 0

-- `Read` of a new chunk into `n` bytes, from its length on. Its error for a length above `maxSize`
-- is here `short_buffer`.
unfoldable pub read_chunk : ChunkReader → ℕ → ℕ → Io (ChunkReader × Text)
read_chunk r n size =
    if ltb max_size size
    then fail short_buffer
    else if leb size n
    then and_then (read_full size) (λ got. done (r, got))
    else and_then (read_full size) (λ got. done (record { buf = some got; offset = n }, take n got))

-- `Read` into `n` bytes: the new reader and the bytes.
unfoldable pub chunk_read : ChunkReader → ℕ → Io (ChunkReader × Text)
chunk_read r n = elim r.buf [
  | some buf ↦
      let got = take n (drop r.offset buf) in
      let offset = r.offset + length got in
      if offset == length buf
      then done (record { buf = none; offset = offset }, got)
      else done (record { buf = some buf; offset = offset }, got)
  | none ↦ and_then (read_full 2) (λ head. read_chunk r n (uint16 head))
]

-- `binary.BigEndian.PutUint16`
abbrev pub put_uint16 : ℕ → Text
put_uint16 n = n / 256 % 256 ∷ n % 256 ∷ []

-- The loop of `Write`, on fuel, for the bytes that are left and the number of those written. Each
-- round takes a byte at least, so the number of bytes is fuel enough.
unfoldable pub write_chunks : ℕ → Text → ℕ → Io ℕ
write_chunks zero b n = done n
write_chunks (suc fuel) b n =
    if length b == 0
    then done n
    else (let read_len = if ltb (length b) chunk_size then length b else chunk_size in
        and_then (write (put_uint16 read_len ++ take read_len b))
          (λ w. write_chunks fuel (drop read_len b) (n + read_len)))

unfoldable pub chunk_write : Text → Io ℕ
chunk_write b = write_chunks (length b) b 0
