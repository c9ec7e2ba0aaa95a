-- ===== src/Alpn/Choice.antt =====
-- The choice on the list that a client sends: names, each behind its length.
use h2_server.Prelude.{
  ◌∙◌, ap, ℕ, zero, suc, ◌+◌, ◌%◌, ◌^◌, ◌<◌, ◌≡◌, inl, inr, refl, sym, true, false, some, List, [],
  ◌∷◌, ◌++◌, length, get_elem?, take, drop, ◌==◌, leb, arith, Bytes, bytes, same, eq_of_same,
  Bool-cases, length-append, ℕ_discrete, take-length-append, drop-length-append, drop_add,
}
use h2_server.Alpn.{
  Selection, selected, no_overlap, select_from, select_next_proto, Callback, ok, noack,
  alpn_select_proto_cb, alpn_proto_list,
}

-- The wire form of a list of names.
abbrev pub encode : List Bytes → Bytes
encode [] = []
encode (name ∷ names) = length name ∷ name ++ encode names

-- Where the first entry with that name starts behind its length byte, in a list that starts at `i`.
abbrev pub offset_of : Bytes → List Bytes → ℕ → Selection
offset_of wanted [] i = no_overlap
offset_of wanted (name ∷ names) i = elim (same name wanted) [
  | true ↦ selected (i + 1) (length name)
  | false ↦ offset_of wanted names (i + 1 + length name)
]

abbrev pub reply : Selection → Callback
reply (selected out outlen) = ok out outlen
reply no_overlap = noack

-- Too short a rest has no entry of that name.
offset_of-short :
    (wanted : Bytes) (names : List Bytes) (i : ℕ)
    → length (encode names) < suc (length wanted)
    → offset_of wanted names i ≡ no_overlap
offset_of-short wanted [] i short = refl
offset_of-short wanted (name ∷ names) i short = elim (Bool-cases (same name wanted)) [
  | inl e ↦
      let same_name = ap length (eq_of_same name wanted e) in
      absurd (omega (arith, length-append name (encode names)))
  | inr e ↦
      rw (e, offset_of)
        (offset_of-short wanted names (i + 1 + length name)
          (omega (arith, length-append name (encode names))))
]

-- At the start of an entry the comparison asks whether the entry has that name.
same_entry :
    (wanted name rest : Bytes)
    → same (take (suc (length wanted)) (length name ∷ name ++ rest)) (length wanted ∷ wanted)
      ≡ same name wanted
unfolding same
same_entry wanted name rest = elim (ℕ_discrete (length name) (length wanted)) [
  | yes e ↦
      let same_size : (length name == length wanted) ≡ true = ground arith in
      rw same_size (
        ap (λ s. same s wanted)
          (ap (λ (n : ℕ). take n (name ++ rest)) (sym e) ∙ take-length-append name rest))
  | no ne ↦
      let other_size : (length name == length wanted) ≡ false = ground arith in
      rw other_size (elim (Bool-cases (same name wanted)) [
        | inl e ↦ absurd (ne (ap length (eq_of_same name wanted e)))
        | inr e ↦ sym e
      ])
]

-- The list from position `i` on is the encoding of the names that are left.
record At (input : Bytes) (i : ℕ) (names : List Bytes) : Type 0 where
  here : drop i input ≡ encode names
  room : i + length (encode names) ≡ length input

At-next :
    (input : Bytes) (i : ℕ) (name : Bytes) (names : List Bytes)
    → At input i (name ∷ names)
    → At input (i + suc (length name)) names
At-next input i name names at = record {
  here =
      drop_add i (suc (length name)) input
      ∙ ap (λ r. drop (suc (length name)) r) at.here
      ∙ drop-length-append name (encode names);
  room = omega (arith, at.room, length-append name (encode names));
}

get_elem?-drop :
    (i : ℕ) (xs : Bytes) (x : ℕ) (r : Bytes) → drop i xs ≡ x ∷ r → get_elem? xs i ≡ some x
get_elem?-drop zero xs x r e = rw e refl
get_elem?-drop (suc i) [] x r e = absurd cc
get_elem?-drop (suc i) (y ∷ xs) x r e = get_elem?-drop i xs x r e

module _ (wanted key input : Bytes)
    (key_form : take (suc (length wanted)) key ≡ length wanted ∷ wanted)
    (small : length input < 2 ^ 31) (key_small : length wanted < 2 ^ 31) where
  -- The whole search, from the entry at `i` on.
  select_from-eq-offset_of :
      (names : List Bytes) (fuel i : ℕ)
      → At input i names
      → length input < fuel + i
      → select_from input (length input) key (suc (length wanted)) fuel i
        ≡ some (offset_of wanted names i)
  unfolding select_from
  select_from-eq-offset_of names zero i at enough = absurd (omega (arith, at.room))
  select_from-eq-offset_of [] (suc fuel) i at enough =
      let short : leb ((i + suc (length wanted)) % 2 ^ 32) (length input) ≡ false =
        ground (arith, at.room) in
      rw (short, select_from) refl
  select_from-eq-offset_of (name ∷ names) (suc fuel) i at enough =
      elim (Bool-cases (leb ((i + suc (length wanted)) % 2 ^ 32) (length input))) [
        | inr short ↦
            rw (short, select_from)
              (ap some (sym (offset_of-short wanted (name ∷ names) i (ground (arith, at.room)))))
        | inl fits ↦
            let size = get_elem?-drop i input (length name) (name ++ encode names) at.here in
            let compared = same_entry wanted name (encode names) in
            let far : (i + (length name + 1) % 2 ^ 32) % 2 ^ 32 ≡ i + suc (length name) =
              omega (arith, at.room, length-append name (encode names)) in
            let sum : i + 1 + length name ≡ i + suc (length name) = omega arith in
            rw (fits, size, at.here, key_form, compared, select_from)
              (elim (Bool-cases (same name wanted)) [
                | inl e ↦ rw (e, offset_of) refl
                | inr e ↦
                    rw (e, offset_of, far, sum)
                      (select_from-eq-offset_of names fuel (i + suc (length name))
                        (At-next input i name names at) (omega arith))
              ])
      ]

-- On the encoding of any list of names, shorter than 2 ^ 31 bytes, the callback ends and selects
-- the first name that is `h2`; it returns NOACK when no name is.
pub alpn_select_proto_cb-offset_of :
    (names : List Bytes)
    → length (encode names) < 2 ^ 31
    → alpn_select_proto_cb (encode names) (length (encode names))
      ≡ some (reply (offset_of (bytes "h2") names 0))
unfolding alpn_select_proto_cb select_next_proto
alpn_select_proto_cb-offset_of names small =
    let searched =
      select_from-eq-offset_of (bytes "h2") alpn_proto_list (encode names) refl small (omega arith)
        names (length (encode names) + 1) 0 record { here = refl; room = omega arith }
        (omega arith) in
    rw (searched, alpn_select_proto_cb) (answered (offset_of (bytes "h2") names 0))
  where
    answered :
        (o : Selection)
        → (elim o [ selected out outlen ↦ some (ok out outlen) | no_overlap ↦ some noack ])
          ≡ some (reply o)
    answered (selected out outlen) = refl
    answered no_overlap = refl
