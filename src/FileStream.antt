-- ===== src/FileStream.antt =====
-- The body of a reply: `FileContext` of src/file_cache.h and the read callbacks of src/session.cc
-- that nghttp2 calls for each DATA frame. `offset` is an `int`, kept as its 32-bit word.
pub mod Delivery
mod Tests
use h2_server.Prelude.{
  ℕ, ◌+◌, ◌-◌, ◌%◌, ◌^◌, min, Bytes, bytes, Bool, true, false, Option, none, some, List, [], ◌∷◌,
  ◌++◌, length, take, drop, leb, ltb, ◌==◌, if◌then◌else◌,
}

-- `content` is the mapped bytes that `data` points to.
pub record FileContext : Type 0 where
  pub size : ℕ
  pub offset : ℕ
  pub content : Bytes

-- The conversion of an `int` to `size_t`.
unfoldable pub to_size : ℕ → ℕ
to_size word = if ltb word (2 ^ 31) then word else word + (2 ^ 64 - 2 ^ 32)

-- The context after the call, the bytes copied, and EOF; `none` is a copy from outside the mapping.
unfoldable pub file_read_callback : FileContext → ℕ → Option (FileContext × Bytes × Bool)
unfolding to_size
file_read_callback ctx len =
    let remain_len = (ctx.size + (2 ^ 64 - to_size ctx.offset)) % 2 ^ 64 in
    let copy_len = min len remain_len in
    let offset = (ctx.offset + copy_len) % 2 ^ 32 in
    if leb (to_size ctx.offset + copy_len) (length ctx.content)
    then some (
      record ctx { offset = offset },
      take copy_len (drop (to_size ctx.offset) ctx.content),
      to_size offset == ctx.size,
    )
    else none

-- The calls for one reply, with the room that each frame has, up to EOF: the bytes and whether EOF
-- came.
unfoldable pub read_frames : List ℕ → FileContext → Option (Bytes × Bool)
unfolding file_read_callback
read_frames [] ctx = some ([], false)
read_frames (len ∷ lens) ctx = elim (file_read_callback ctx len) [
  | none ↦ none
  | some (ctx', chunk, true) ↦ some (chunk, true)
  | some (ctx', chunk, false) ↦ elim (read_frames lens ctx') [
    | none ↦ none
    | some (chunks, eof) ↦ some (chunk ++ chunks, eof)
  ]
]

abbrev pub error_html : Bytes
error_html = bytes "<html><head><title>404</title></head><body><h1>404 Not Found</h1></body></html>"

-- The bytes copied and EOF.
unfoldable pub error_read_callback : ℕ → Bytes × Bool
error_read_callback len = (take (min len (length error_html)) error_html, true)
