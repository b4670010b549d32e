-- ===== src/Transport/Reads.antt =====
-- What is read from chunks (transport/vmess/chunk.go).
use mathlib.Core.List.{append_assoc}
use rule_base_proxy.Common.{
  Bool-cases, List, Option, Text, [], ap, arith, drop, false, inl, inr, leb, length, length-drop,
  length-take, ltb, none, refl, some, suc, sym, take, take-append-drop, true, zero, ℕ, ◌++◌, ◌+◌,
  ◌-◌, ◌<◌, ◌==◌, ◌∙◌, ◌∷◌, ◌≡◌, ◌≤◌,
}
use rule_base_proxy.Socks5.Stream.{
  Conn, ok, Io, and_then, done, read_full, read_full-append, and_then-ok,
}
use rule_base_proxy.Transport.Chunk.{
  ChunkReader, chunk_size, max_size, uint16, read_chunk, chunk_read, put_uint16,
}

-- The bytes `plain` in chunks.
pub data Chunked : Text → Text → Type 0 where
  no_chunk : Chunked [] []
  chunk :
      (c : Text) {plain wire : Text}
      → 0 < length c
      → length c ≤ chunk_size
      → Chunked plain wire
      → Chunked (c ++ plain) (put_uint16 (length c) ++ (c ++ wire))

-- What a reader has still to give of a connection.
abbrev pub Remaining : ChunkReader → Conn → Text → Type 0
Remaining r conn plain = elim r.buf [
  | none ↦ Chunked plain conn.input
  | some buf ↦
      (rest : Text) × (r.offset < length buf)
      × (plain ≡ drop r.offset buf ++ rest)
      × Chunked rest conn.input
]

uint16-put_uint16 : (n : ℕ) (l : Text) → n ≤ chunk_size → uint16 (put_uint16 n ++ l) ≡ n
unfolding uint16
uint16-put_uint16 n l h = omega arith

drop-drop {ℓ} : {A : Type ℓ} (m n : ℕ) (l : List A) → drop m (drop n l) ≡ drop (n + m) l
drop-drop m zero l = let e : m ≡ 0 + m = omega arith in ap (λ k. drop k l) e
drop-drop zero (suc n) [] = let e : suc n ≡ suc n + 0 = omega arith in ap (λ k. drop k []) e
drop-drop (suc m) (suc n) [] =
    let e : suc (n + suc m) ≡ suc n + suc m = omega arith in ap (λ k. drop k []) e
drop-drop m (suc n) (x ∷ l) =
    let e : suc (n + m) ≡ suc n + m = omega arith in drop-drop m n l ∙ ap (λ k. drop k (x ∷ l)) e

take-all {ℓ} : {A : Type ℓ} (n : ℕ) (l : List A) → length l ≤ n → take n l ≡ l
take-all zero [] h = refl
take-all zero (x ∷ l) h = absurd (omega arith)
take-all (suc n) [] h = refl
take-all (suc n) (x ∷ l) h = ap (◌∷◌ x) (take-all n l (omega arith))

-- A successful `Read`.
record IsRead (r : ChunkReader) (conn : Conn) (plain : Text) (n : ℕ) : Type 0 where
  reader : ChunkReader
  after : Conn
  got : Text
  rest : Text
  runs : chunk_read r n conn ≡ (after, ok (reader, got))
  parts : plain ≡ got ++ rest
  some_got : 0 < length got
  fits : length got ≤ n
  remains : Remaining reader after rest

-- From the buffer.
IsRead-buffered :
    (conn : Conn) (buf : Text) (offset n : ℕ) (plain rest : Text)
    → offset < length buf
    → plain ≡ drop offset buf ++ rest
    → Chunked rest conn.input
    → 0 < n
    → IsRead (record { buf = some buf; offset = offset }) conn plain n
unfolding chunk_read
IsRead-buffered conn buf offset n plain rest low parts wire room =
    let d = drop offset buf in
    let long : length d ≡ length buf - offset = length-drop offset buf in
    let some_length = length-take n d in
    elim (Bool-cases (leb (length d) n)) [
      | inl all ↦
          let whole : take n d ≡ d = take-all n d (ground (arith, all)) in
          let e : (offset + length (take n d) == length buf) ≡ true =
            ground (arith, some_length, long, all, low) in
          record {
            reader = record { buf = none; offset = offset + length (take n d) };
            after = conn;
            got = take n d;
            rest = rest;
            runs = rw e refl;
            parts = parts ∙ ap (λ x. x ++ rest) (sym whole);
            some_got = omega (arith, some_length, long);
            fits = omega (arith, some_length);
            remains = wire;
          }
      | inr part ↦
          let e : (offset + length (take n d) == length buf) ≡ false =
            ground (arith, some_length, long, part) in
          let moved : offset + length (take n d) ≡ offset + n = ground (arith, some_length, part) in
          record {
            reader = record { buf = some buf; offset = offset + length (take n d) };
            after = conn;
            got = take n d;
            rest = drop n d ++ rest;
            runs = rw e refl;
            parts =
                parts
                ∙ ap (λ x. x ++ rest) (sym (take-append-drop n d))
                ∙ append_assoc (take n d) (drop n d) rest;
            some_got = ground (arith, some_length, part);
            fits = omega (arith, some_length);
            remains = (
              rest,
              ground (arith, moved, long, part),
              rw moved (ap (λ x. x ++ rest) (drop-drop n offset buf)),
              wire,
            );
          }
    ]

-- A new chunk.
IsRead-fresh :
    (offset n k : ℕ) (plain wire out : Text)
    → Chunked plain wire
    → 0 < length plain
    → 0 < n
    → IsRead
        (record { buf = none; offset = offset })
        (record { input = wire; output = out; writes = k })
        plain
        n
unfolding chunk_read read_chunk
IsRead-fresh offset n k _ _ out no_chunk some_left room = absurd (omega arith)
IsRead-fresh offset n k _ _ out (chunk c {plain} {wire} some_bytes short w) some_left room =
    let two = read_full-append 2 (put_uint16 (length c)) (c ++ wire) out k refl in
    let size = uint16-put_uint16 (length c) [] short in
    let body = read_full-append (length c) c wire out k refl in
    let r : ChunkReader = record { buf = none; offset = offset } in
    let head : Conn = record {
      input = put_uint16 (length c) ++ (c ++ wire);
      output = out;
      writes = k;
    } in
    let rest_of : Conn = record { input = c ++ wire; output = out; writes = k } in
    let start : chunk_read r n head ≡ read_chunk r n (length c) rest_of =
      and_then-ok (read_full 2) (λ h. read_chunk r n (uint16 h)) two
      ∙ ap (λ s. read_chunk r n s rest_of) size in
    let small : ltb max_size (length c) ≡ false = ground (arith, short) in
    elim (Bool-cases (leb (length c) n)) [
      | inl all ↦
          let whole : Text → Io (ChunkReader × Text) = λ b. done (r, b) in
          let run : read_chunk r n (length c) rest_of
              ≡ and_then (read_full (length c)) whole rest_of =
            rw (read_chunk, small, all) refl in
          record {
            reader = r;
            after = record { input = wire; output = out; writes = k };
            got = c;
            rest = plain;
            runs = start ∙ run ∙ and_then-ok (read_full (length c)) whole body;
            parts = refl;
            some_got = some_bytes;
            fits = ground (arith, all);
            remains = w;
          }
      | inr part ↦
          let kept : Text → Io (ChunkReader × Text) =
            λ b. done (record { buf = some b; offset = n }, take n b) in
          let run : read_chunk r n (length c) rest_of
              ≡ and_then (read_full (length c)) kept rest_of =
            rw (read_chunk, small, part) refl in
          record {
            reader = record { buf = some c; offset = n };
            after = record { input = wire; output = out; writes = k };
            got = take n c;
            rest = drop n c ++ plain;
            runs = start ∙ run ∙ and_then-ok (read_full (length c)) kept body;
            parts =
                ap (λ x. x ++ plain) (sym (take-append-drop n c))
                ∙ append_assoc (take n c) (drop n c) plain;
            some_got = ground (arith, length-take n c, part);
            fits = omega (arith, length-take n c);
            remains = (plain, ground (arith, part), refl, w);
          }
    ]

any-IsRead :
    (buf : Option Text) (offset : ℕ) (conn : Conn) (plain : Text) (n : ℕ)
    → Remaining (record { buf = buf; offset = offset }) conn plain
    → 0 < length plain
    → 0 < n
    → IsRead (record { buf = buf; offset = offset }) conn plain n
any-IsRead none offset conn plain n left some_left room =
    IsRead-fresh offset n conn.writes plain conn.input conn.output left some_left room
any-IsRead (some buf) offset conn plain n (rest, low, parts, wire) some_left room =
    IsRead-buffered conn buf offset n plain rest low parts wire room

-- `Read` into a buffer of `n` bytes gives the next bytes of what remains, `n` at most and one at
-- least, and leaves the rest; nothing is left out, repeated or put in another order.
pub chunk_read-Remaining :
    (r : ChunkReader) (conn : Conn) (plain : Text) (n : ℕ)
    → Remaining r conn plain
    → 0 < length plain
    → 0 < n
    → (r' : ChunkReader) × (conn' : Conn) × (got rest : Text) × (chunk_read r n conn
        ≡ (conn', ok (r', got)))
      × (plain ≡ got ++ rest)
      × (0 < length got)
      × (length got ≤ n)
      × Remaining r' conn' rest
chunk_read-Remaining r conn plain n left some_left room =
    let found = any-IsRead r.buf r.offset conn plain n left some_left room in
    (
      found.reader, found.after, found.got, found.rest, found.runs, found.parts, found.some_got,
      found.fits, found.remains,
    )
