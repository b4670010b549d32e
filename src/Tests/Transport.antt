-- ===== src/Tests/Transport.antt =====
-- Bytes in chunks.
use rule_base_proxy.Common.{Text, [], arith, codes, length, refl, some, ◌++◌, ◌<◌, ◌∷◌, ◌≡◌, ◌≤◌}
use rule_base_proxy.Socks5.Stream.{Conn, ok, read_full}
use rule_base_proxy.Transport.Chunk.{
  ChunkReader, new_chunk_reader, uint16, read_chunk, chunk_read, chunk_write,
}
use rule_base_proxy.Transport.Reads.{Chunked, no_chunk, chunk, Remaining, chunk_read-Remaining}
use rule_base_proxy.Transport.Writes.{chunk_write-Chunked}

abbrev hello : Text
hello = codes "hello"

-- One chunk that the peer has sent.
abbrev sent : Conn
sent = record { input = 0 ∷ 5 ∷ hello; output = []; writes = 9 }

hello-Chunked : Chunked hello (0 ∷ 5 ∷ hello)
hello-Chunked = chunk hello (omega arith) (omega arith) no_chunk

chunk_read-Remaining_example :
    (r' : ChunkReader) × (conn' : Conn) × (got rest : Text) × (chunk_read new_chunk_reader 3 sent
      ≡ (conn', ok (r', got)))
    × (hello ≡ got ++ rest)
    × (0 < length got)
    × (length got ≤ 3)
    × Remaining r' conn' rest
chunk_read-Remaining_example =
    chunk_read-Remaining new_chunk_reader sent hello 3 hello-Chunked (omega arith) (omega arith)

-- The first three bytes, and the two that are left in the buffer.
reads_part :
    chunk_read new_chunk_reader 3 sent
    ≡ (record sent { input = [] }, ok (record { buf = some hello; offset = 3 }, codes "hel"))
unfolding chunk_read read_chunk read_full uint16
reads_part = refl

chunk_write-Chunked_example :
    (wire : Text) × (conn' : Conn) × (chunk_write hello sent ≡ (conn', ok 5))
    × (conn'.output ≡ [] ++ wire)
    × Chunked hello wire
chunk_write-Chunked_example = chunk_write-Chunked hello sent (omega arith)
