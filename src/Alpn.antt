-- ===== src/Alpn.antt =====
-- The choice of the application protocol in src/ssl_ctx.cc. `in` is `input` here, and `none` is a
-- length byte beyond it or the end of the fuel; `unsigned int` wraps as written out.
pub mod Choice
mod Tests
use h2_server.Prelude.{
  ℕ, zero, suc, ◌+◌, ◌%◌, ◌^◌, Bytes, bytes, same, Bool, true, false, Option, none, some, List, [],
  ◌∷◌, ◌++◌, length, get_elem?, take, drop, leb,
}

-- The position and the length that are written through `out` and `outlen`, or -1.
pub data Selection : Type 0 where
  selected : ℕ → ℕ → Selection
  no_overlap : Selection

abbrev pub alpn_proto_list : Bytes
alpn_proto_list = 2 ∷ bytes "h2" ++ 8 ∷ bytes "http/1.1"

module _ (input : Bytes) (inlen : ℕ) (key : Bytes) (keylen : ℕ) where
  -- The loop; every round moves `i` on.
  unfoldable pub select_from : ℕ → ℕ → Option Selection
  unfolding same
  select_from zero i = none
  select_from (suc fuel) i = elim (leb ((i + keylen) % 2 ^ 32) inlen) [
    | false ↦ some no_overlap
    | true ↦ elim (get_elem? input i) [
      | none ↦ none
      | some size ↦ elim (same (take keylen (drop i input)) (take keylen key)) [
        | true ↦ some (selected (i + 1) size)
        | false ↦ select_from fuel ((i + (size + 1) % 2 ^ 32) % 2 ^ 32)
      ]
    ]
  ]

  unfoldable pub select_next_proto : Option Selection
  unfolding select_from
  select_next_proto = select_from (inlen + 1) 0

-- What the callback returns, with what it writes.
pub data Callback : Type 0 where
  ok : ℕ → ℕ → Callback
  noack : Callback

unfoldable pub alpn_select_proto_cb : Bytes → ℕ → Option Callback
unfolding select_next_proto
alpn_select_proto_cb input inlen = elim (select_next_proto input inlen alpn_proto_list 3) [
  | none ↦ none
  | some (selected out outlen) ↦ some (ok out outlen)
  | some no_overlap ↦ some noack
]

-- `is_alpn_h2_selected`; no protocol is the null pointer with the length 0, which is an empty text.
unfoldable pub is_alpn_h2_selected : Option Bytes → Bool
unfolding same
is_alpn_h2_selected none = same [] (bytes "h2")
is_alpn_h2_selected (some alpn) = same alpn (bytes "h2")
