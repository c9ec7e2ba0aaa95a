-- ===== src/Router/Table/Insertion.antt =====
-- The ways through `insert_recursive`, one constructor for each, and that every call takes one.
use h2_server.Prelude.{
  ◌≡◌, ◌-◌, ◌⊎◌, inl, inr, true, false, Bool, Option, none, some, List, [], ◌∷◌, Bytes, length,
  take, drop, ltb, Option-cases, Bool-cases, refl,
}
use h2_server.Router.{
  Method, Node, ParamChild, absent, present, empty_node, static_children, param_child, set_handler,
  child, find_child, replace_child, with_children, with_param, is_param, insert_recursive,
}

module _ {H : Type 0} where
  pub data Insertion (method : Method) (h : Option H)
      : List Bytes → Node H → Node H → Bool → Type 0 where
    ends : (n : Node H) → Insertion method h [] n (set_handler method h n) true
    descends :
        {seg : Bytes} {segs : List Bytes} {n c c' : Node H} {done : Bool}
        → find_child seg (static_children n) ≡ some c
        → Insertion method h segs c c' done
        → Insertion method h
            (seg ∷ segs)
            n
            (with_children (replace_child seg c' (static_children n)) n)
            done
    makes_static :
        {seg : Bytes} {segs : List Bytes} {n c' : Node H} {done : Bool}
        → find_child seg (static_children n) ≡ none
        → is_param seg ≡ false
        → Insertion method h segs empty_node c' done
        → Insertion method h
            (seg ∷ segs)
            n
            (with_children (child seg c' (static_children n)) n)
            done
    makes_param :
        {seg : Bytes} {segs : List Bytes} {n c' : Node H} {done : Bool}
        → find_child seg (static_children n) ≡ none
        → is_param seg ≡ true
        → ltb (length seg) 3 ≡ false
        → param_child n ≡ absent
        → Insertion method h segs empty_node c' done
        → Insertion method h
            (seg ∷ segs)
            n
            (with_param (present (take (length seg - 2) (drop 1 seg)) c') n)
            done
    refuses :
        {seg : Bytes} {segs : List Bytes} {n : Node H}
        → is_param seg ≡ true
        → (ltb (length seg) 3 ≡ true)
          ⊎ ((name : Bytes) × (c : Node H) × (param_child n ≡ present name c))
        → Insertion method h (seg ∷ segs) n n false

  pub Param-cases :
      (p : ParamChild H) → (p ≡ absent) ⊎ ((name : Bytes) × (n : Node H) × (p ≡ present name n))
  Param-cases absent = inl refl
  Param-cases (present name n) = inr (name, n, refl)

  pub insertion :
      (method : Method) (h : Option H) (segs : List Bytes) (n : Node H)
      → Insertion method h segs n
          (insert_recursive method segs n h).0
          (insert_recursive method segs n h).1
  unfolding insert_recursive
  insertion method h [] n = ends n
  insertion method h (seg ∷ segs) n = elim (Option-cases (find_child seg (static_children n))) [
    | inr (c, hit) ↦ rw (hit, insert_recursive) (descends hit (insertion method h segs c))
    | inl miss ↦ elim (Bool-cases (is_param seg)) [
      | inr plain ↦
          rw (miss, plain, insert_recursive)
            (makes_static miss plain (insertion method h segs empty_node))
      | inl braces ↦ elim (Bool-cases (ltb (length seg) 3)) [
        | inl short ↦ rw (miss, braces, short, insert_recursive) (refuses braces (inl short))
        | inr long ↦ elim (Param-cases (param_child n)) [
          | inr (name, c, taken) ↦
              rw (miss, braces, long, taken, insert_recursive)
                (refuses braces (inr (name, c, taken)))
          | inl free ↦
              rw (miss, braces, long, free, insert_recursive)
                (makes_param miss braces long free (insertion method h segs empty_node))
        ]
      ]
    ]
  ]
