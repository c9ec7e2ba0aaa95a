-- ===== src/Router/Print/Maps.antt =====
-- The keys of the children are distinct from the empty tree on.
use h2_server.Prelude.{
  ◌≡◌, refl, inl, inr, Bool, Option, none, some, List, Bytes, same, Bool-cases, arith, subst,
}
use h2_server.Router.{
  Method, get, post, Node, node, Children, nil, child, empty_node, set_handler, find_child,
  replace_child, add,
}
use h2_server.Router.Segments.{split_path_segments}
use h2_server.Router.Table.Insertion.{
  Insertion, ends, descends, makes_static, makes_param, refuses, insertion,
}
use h2_server.Router.Print.Sound.{IsMap, AreMaps}

pub empty_node-IsMap : (H : Type 0) → IsMap (empty_node {H = H})
unfolding IsMap
empty_node-IsMap H = (tt, tt)

module _ {H : Type 0} where
  found-IsMap :
      (seg : Bytes) (cs : Children H) {n : Node H}
      → AreMaps cs
      → find_child seg cs ≡ some n
      → IsMap n
  unfolding IsMap find_child
  found-IsMap seg nil h e = cc
  found-IsMap seg (child key m cs) {n} h e = elim (Bool-cases (same key seg)) [
    | inl hit ↦ let here : m ≡ n = ground arith in subst (λ x. IsMap x) here h.1
    | inr miss ↦ found-IsMap seg cs h.2 (rw miss at e)
  ]

  -- A write through an entry adds no key.
  missing-replace_child :
      (key seg : Bytes) (n : Node H) (cs : Children H)
      → find_child key cs ≡ none
      → find_child key (replace_child seg n cs) ≡ none
  unfolding find_child replace_child
  missing-replace_child key seg n nil e = refl
  missing-replace_child key seg n (child k m cs) e =
      ground (arith, missing-replace_child key seg n cs)

  replace_child-AreMaps :
      (seg : Bytes) (n : Node H) (cs : Children H)
      → AreMaps cs
      → IsMap n
      → AreMaps (replace_child seg n cs)
  unfolding IsMap replace_child
  replace_child-AreMaps seg n nil h k = tt
  replace_child-AreMaps seg n (child key m cs) h k = elim (Bool-cases (same key seg)) [
    | inl hit ↦ rw (hit, AreMaps) (h.0, k, h.2)
    | inr miss ↦
        rw (miss, AreMaps)
          (missing-replace_child key seg n cs h.0, h.1, replace_child-AreMaps seg n cs h.2 k)
  ]

  set_handler-IsMap :
      (method : Method) (h : Option H) (n : Node H) → IsMap n → IsMap (set_handler method h n)
  unfolding IsMap set_handler
  set_handler-IsMap get h (node cs p g q) k = k
  set_handler-IsMap post h (node cs p g q) k = k

  -- Whatever `insert_recursive` returns, it leaves such a tree.
  Insertion-IsMap :
      {method : Method} {h : Option H} {segs : List Bytes} {n n' : Node H} {done : Bool}
      → Insertion method h segs n n' done
      → IsMap n
      → IsMap n'
  unfolding IsMap
  Insertion-IsMap {method} {h} (ends n) k = set_handler-IsMap method h n k
  Insertion-IsMap (descends {seg} {n = node cs p g q} hit i) k =
      (replace_child-AreMaps seg _ cs k.0 (Insertion-IsMap i (found-IsMap seg cs k.0 hit)), k.1)
  Insertion-IsMap (makes_static {n = node cs p g q} miss plain i) k =
      ((miss, Insertion-IsMap i (empty_node-IsMap H), k.0), k.1)
  Insertion-IsMap (makes_param {n = node cs p g q} miss braces long free i) k =
      (k.0, Insertion-IsMap i (empty_node-IsMap H))
  Insertion-IsMap (refuses braces why) k = k

  pub add-IsMap :
      (method : Method) (uri : Bytes) (h : Option H) (root : Node H)
      → IsMap root
      → IsMap (add method uri h root).0
  unfolding add
  add-IsMap method uri h root k =
      Insertion-IsMap (insertion method h (split_path_segments uri) root) k
