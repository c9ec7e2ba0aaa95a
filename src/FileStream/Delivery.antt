-- ===== src/FileStream/Delivery.antt =====
-- The frames of a reply carry the file.
use h2_server.Prelude.{
  ◌∙◌, ap, ℕ, ◌+◌, ◌-◌, ◌%◌, ◌^◌, ◌<◌, ◌≤◌, ◌≡◌, inl, inr, refl, sym, true, false, some, List, [],
  ◌∷◌, ◌++◌, length, take, drop, ◌==◌, leb, ltb, arith, Bytes, min, drop_add, take_add, take_all,
  length-drop, Bool-cases,
}
use h2_server.FileStream.{FileContext, to_size, file_read_callback, read_frames}

abbrev pub sum : List ℕ → ℕ
sum [] = 0
sum (n ∷ ns) = n + sum ns

-- A context in the middle of a file smaller than 2 GiB.
record Within (ctx : FileContext) : Type 0 where
  whole : ctx.size ≡ length ctx.content
  small : ctx.size < 2 ^ 31
  inside : ctx.offset ≤ ctx.size

file_read_callback-copy :
    (ctx : FileContext) (len : ℕ)
    → Within ctx
    → file_read_callback ctx len
      ≡ some (
        record ctx { offset = ctx.offset + min len (ctx.size - ctx.offset) },
        take (min len (ctx.size - ctx.offset)) (drop ctx.offset ctx.content),
        leb (ctx.size - ctx.offset) len,
      )
unfolding file_read_callback to_size
file_read_callback-copy ctx len w =
    let low : ltb ctx.offset (2 ^ 31) ≡ true = ground (arith, w.small, w.inside) in
    let left : (ctx.size + (2 ^ 64 - ctx.offset)) % 2 ^ 64 ≡ ctx.size - ctx.offset =
      omega (arith, w.small, w.inside) in
    let word : (ctx.offset + min len (ctx.size - ctx.offset)) % 2 ^ 32
        ≡ ctx.offset + min len (ctx.size - ctx.offset) =
      omega (arith, w.small, w.inside) in
    let low' : ltb (ctx.offset + min len (ctx.size - ctx.offset)) (2 ^ 31) ≡ true =
      ground (arith, w.small, w.inside) in
    let within : leb (ctx.offset + min len (ctx.size - ctx.offset)) (length ctx.content) ≡ true =
      ground (arith, w.small, w.inside, w.whole) in
    let last : (ctx.offset + min len (ctx.size - ctx.offset) == ctx.size)
        ≡ leb (ctx.size - ctx.offset) len =
      ground (arith, w.small, w.inside) in
    rw (low, left, word, low', within, last) refl

-- Reading on from the middle of a file.
read_frames-Within :
    (ns : List ℕ) (ctx : FileContext)
    → Within ctx
    → ctx.offset < ctx.size
    → read_frames ns ctx
      ≡ some (take (sum ns) (drop ctx.offset ctx.content), leb (ctx.size - ctx.offset) (sum ns))
unfolding read_frames
read_frames-Within [] ctx w left =
    let none_left : leb (ctx.size - ctx.offset) 0 ≡ false = ground arith in rw none_left refl
read_frames-Within (n ∷ ns) ctx w left =
    let room : length (drop ctx.offset ctx.content) ≡ ctx.size - ctx.offset =
      omega (arith, length-drop ctx.offset ctx.content, w.whole) in
    elim (Bool-cases (leb (ctx.size - ctx.offset) n)) [
      | inl last ↦
          let enough : leb (ctx.size - ctx.offset) (n + sum ns) ≡ true = ground arith in
          rw (file_read_callback-copy ctx n w, last, enough, read_frames)
            (ap (λ c. some (c, true))
              (take_all (min n (ctx.size - ctx.offset)) (drop ctx.offset ctx.content) (ground arith)
                ∙ sym (take_all (n + sum ns) (drop ctx.offset ctx.content) (ground arith))))
      | inr more ↦
          let part : min n (ctx.size - ctx.offset) ≡ n = ground arith in
          let w' : Within (record ctx { offset = ctx.offset + n }) = record {
            whole = w.whole;
            small = w.small;
            inside = ground arith;
          } in
          let same_end : leb (ctx.size - (ctx.offset + n)) (sum ns)
              ≡ leb (ctx.size - ctx.offset) (n + sum ns) =
            ground arith in
          rw
            (
              file_read_callback-copy ctx n w,
              more,
              part,
              read_frames-Within ns (record ctx { offset = ctx.offset + n }) w' (ground arith),
              read_frames,
              same_end,
            )
            (ap (λ c. some (c, leb (ctx.size - ctx.offset) (n + sum ns)))
              (ap
                  (λ (k : ℕ).
                    take k (drop ctx.offset ctx.content)
                    ++ take (sum ns) (drop (ctx.offset + n) ctx.content))
                  part
                ∙ ap (λ r. take n (drop ctx.offset ctx.content) ++ take (sum ns) r)
                    (drop_add ctx.offset n ctx.content)
                ∙ sym (take_add n (sum ns) (drop ctx.offset ctx.content))))
    ]

-- Whatever room each frame has, the reply for a mapped file that is neither empty nor of 2 GiB or
-- more carries the file's bytes in order, none twice and none from outside: as many as the frames
-- have room for, and EOF comes exactly if they have room for the whole file.
pub read_frames-take :
    (lens : List ℕ) (content : Bytes)
    → 0 < length content
    → length content < 2 ^ 31
    → read_frames lens record { size = length content; offset = 0; content = content }
      ≡ some (take (sum lens) content, leb (length content) (sum lens))
read_frames-take lens content some_bytes small =
    let whole : length content - 0 ≡ length content = omega arith in
    read_frames-Within lens record { size = length content; offset = 0; content = content }
      record { whole = refl; small = small; inside = omega arith } some_bytes
    ∙ ap (λ (m : ℕ). some (take (sum lens) content, leb m (sum lens))) whole
