-- ===== src/Transport/Writes.antt =====
-- What is written in chunks (transport/vmess/chunk.go).
use mathlib.Core.List.{append-nil, append_assoc}
use rule_base_proxy.Common.{
  ==_iff, Bool-cases, Text, [], ap, arith, drop, if◌then◌else◌, inl, inr, length, length-drop,
  length-take, ltb, subst₂, suc, sym, take, take-append-drop, zero, ℕ, ◌++◌, ◌+◌, ◌-◌, ◌<◌, ◌==◌,
  ◌∙◌, ◌∷◌, ◌≡◌, ◌≤◌,
}
use rule_base_proxy.Socks5.Stream.{write, Conn, ok, write, and_then-ok}
use rule_base_proxy.Transport.Chunk.{
  write_chunks, chunk_write, chunk_size, put_uint16, write_chunks, chunk_write,
}
use rule_base_proxy.Transport.Reads.{Chunked, no_chunk, chunk}

write-Chunked :
    (c : Text) (conn : Conn) (k : ℕ)
    → conn.writes ≡ suc k
    → write c conn ≡ (record conn { output = conn.output ++ c; writes = k }, ok tt)
unfolding write
write-Chunked c conn k e = ground (arith, e)

nothing : (b : Text) (n : ℕ) → length b ≡ 0 → (n ≡ n + length b) × Chunked b []
nothing [] n h = (omega arith, no_chunk)
nothing (x ∷ b) n h = absurd (omega arith)

-- The first bytes of some as a chunk before the rest of them.
chunk_at :
    (l : ℕ) (b wire : Text)
    → 0 < l
    → l ≤ chunk_size
    → l ≤ length b
    → Chunked (drop l b) wire
    → Chunked b ((put_uint16 l ++ take l b) ++ wire)
chunk_at l b wire some_bytes short low is =
    let cut : length (take l b) ≡ l = omega (arith, length-take l b) in
    subst₂ (λ x y. Chunked x (put_uint16 y ++ (take l b ++ wire))) (take-append-drop l b) cut
      (chunk (take l b) (omega (arith, cut)) (omega (arith, cut)) is)

write_chunks-Chunked :
    (fuel : ℕ) (b : Text) (n : ℕ) (conn : Conn)
    → length b ≤ fuel
    → length b ≤ conn.writes
    → (wire : Text) × (conn' : Conn) × (write_chunks fuel b n conn ≡ (conn', ok (n + length b)))
      × (conn'.output ≡ conn.output ++ wire)
      × Chunked b wire
unfolding write_chunks
write_chunks-Chunked zero b n conn h writes =
    let (e, is) = nothing b n (omega arith) in
    ([], conn, ap (λ x. (conn, ok x)) e, sym (append-nil conn.output), is)
write_chunks-Chunked (suc fuel) b n conn h writes = elim (Bool-cases (length b == 0)) [
  | inl none_left ↦
      let (e, is) = nothing b n ((==_iff (length b) 0).0 none_left) in
      ([], conn, rw none_left (ap (λ x. (conn, ok x)) e), sym (append-nil conn.output), is)
  | inr some_left ↦
      let l : ℕ = if ltb (length b) chunk_size then length b else chunk_size in
      let small : (0 < l) × (l ≤ chunk_size) × (l ≤ length b) = ground (arith, some_left) in
      let cut : length (take l b) ≡ l = omega (arith, length-take l b) in
      let head : Text = put_uint16 l ++ take l b in
      let k = conn.writes - 1 in
      let wrote : Conn = record conn { output = conn.output ++ head; writes = k } in
      let (wire, conn', run, out, is) =
        write_chunks-Chunked fuel (drop l b) (n + l) wrote (omega (arith, length-drop l b))
          (omega (arith, length-drop l b)) in
      let same : (n + l) + length (drop l b) ≡ n + length b = omega (arith, length-drop l b) in
      (
        head ++ wire,
        conn',
        rw (some_left, write_chunks)
            (and_then-ok (write head) (λ w. write_chunks fuel (drop l b) (n + l))
                (write-Chunked head conn k (omega arith))
              ∙ run
              ∙ ap (λ x. (conn', ok x)) same),
        out ∙ append_assoc conn.output head wire,
        chunk_at l b wire small.0 small.1 small.2 is,
      )
]

-- `Write` on a connection that takes as many writes as there are bytes returns the number of the
-- bytes, and what it has written is the bytes in chunks.
pub chunk_write-Chunked :
    (b : Text) (conn : Conn)
    → length b ≤ conn.writes
    → (wire : Text) × (conn' : Conn) × (chunk_write b conn ≡ (conn', ok (length b)))
      × (conn'.output ≡ conn.output ++ wire)
      × Chunked b wire
unfolding chunk_write
chunk_write-Chunked b conn writes =
    let (wire, conn', run, out, is) =
      write_chunks-Chunked (length b) b 0 conn (omega arith) writes in
    let same : 0 + length b ≡ length b = omega arith in
    (wire, conn', run ∙ ap (λ x. (conn', ok x)) same, out, is)
