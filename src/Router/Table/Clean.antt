-- ===== src/Router/Table/Clean.antt =====
-- No static child is named like a parameter: so it is from the empty tree on.
use h2_server.Prelude.{
  ◌≡◌, Option, some, List, Bytes, arith, Bool-cases, inl, inr, false, Bool, same, eq_of_same, subst,
}
use h2_server.Router.Table.Insertion.{Insertion, ends, descends, makes_static, makes_param, refuses}
use h2_server.Router.{
  Method, get, post, Node, node, Children, nil, child, ParamChild, absent, present, empty_node,
  static_children, param_child, set_handler, find_child, replace_child, with_children, with_param,
  is_param,
}

unfoldable mutual
  pub IsClean : {H : Type 0} → Node H → Type 0
  IsClean (node cs p g q) = AreClean cs × IsCleanParam p

  pub AreClean : {H : Type 0} → Children H → Type 0
  AreClean nil = Unit
  AreClean (child key n cs) = (is_param key ≡ false) × IsClean n × AreClean cs

  pub IsCleanParam : {H : Type 0} → ParamChild H → Type 0
  IsCleanParam absent = Unit
  IsCleanParam (present name n) = IsClean n

pub empty_node-IsClean : (H : Type 0) → IsClean (empty_node {H = H})
unfolding IsClean
empty_node-IsClean H = (tt, tt)

module _ {H : Type 0} where
  pub static_children-AreClean : (n : Node H) → IsClean n → AreClean (static_children n)
  unfolding IsClean
  static_children-AreClean (node cs p g q) h = h.0

  pub param_child-IsCleanParam : (n : Node H) → IsClean n → IsCleanParam (param_child n)
  unfolding IsClean
  param_child-IsCleanParam (node cs p g q) h = h.1

  pub found-IsClean :
      (seg : Bytes) (cs : Children H) {n : Node H}
      → AreClean cs
      → find_child seg cs ≡ some n
      → IsClean n × (is_param seg ≡ false)
  unfolding IsClean find_child
  found-IsClean seg nil h e = cc
  found-IsClean seg (child key m cs) {n} h e = elim (Bool-cases (same key seg)) [
    | inl hit ↦
        let here : m ≡ n = ground arith in
        (subst IsClean here h.1, subst (λ k. is_param k ≡ false) (eq_of_same key seg hit) h.0)
    | inr miss ↦ found-IsClean seg cs h.2 (rw miss at e)
  ]

  pub replace_child-AreClean :
      (seg : Bytes) (n : Node H) (cs : Children H)
      → AreClean cs
      → IsClean n
      → AreClean (replace_child seg n cs)
  unfolding IsClean replace_child
  replace_child-AreClean seg n nil h k = tt
  replace_child-AreClean seg n (child key m cs) h k = elim (Bool-cases (same key seg)) [
    | inl hit ↦ rw (hit, AreClean) (h.0, k, h.2)
    | inr miss ↦ rw (miss, AreClean) (h.0, h.1, replace_child-AreClean seg n cs h.2 k)
  ]

  with_children-IsClean :
      (n : Node H) (cs : Children H) → IsClean n → AreClean cs → IsClean (with_children cs n)
  unfolding IsClean
  with_children-IsClean (node _ p g q) cs h k = (k, h.1)

  child-AreClean :
      (seg : Bytes) (n : Node H) (cs : Children H)
      → is_param seg ≡ false
      → IsClean n
      → AreClean cs
      → AreClean (child seg n cs)
  unfolding IsClean
  child-AreClean seg n cs plain h k = (plain, h, k)

  present-IsCleanParam : (name : Bytes) (n : Node H) → IsClean n → IsCleanParam (present name n)
  unfolding IsClean
  present-IsCleanParam name n h = h

  with_param-IsClean :
      (n : Node H) (p : ParamChild H) → IsClean n → IsCleanParam p → IsClean (with_param p n)
  unfolding IsClean
  with_param-IsClean (node cs _ g q) p h k = (h.0, k)

  set_handler-IsClean :
      (method : Method) (h : Option H) (n : Node H) → IsClean n → IsClean (set_handler method h n)
  unfolding IsClean set_handler
  set_handler-IsClean get h (node cs p g q) k = k
  set_handler-IsClean post h (node cs p g q) k = k

  -- Whatever `insert_recursive` returns, it leaves such a tree.
  pub Insertion-IsClean :
      {method : Method} {h : Option H} {segs : List Bytes} {n n' : Node H} {done : Bool}
      → Insertion method h segs n n' done
      → IsClean n
      → IsClean n'
  Insertion-IsClean {method} {h} (ends n) k = set_handler-IsClean method h n k
  Insertion-IsClean (descends {seg} {n} hit i) k =
      let ks = static_children-AreClean n k in
      with_children-IsClean n _ k (
        replace_child-AreClean seg _ (static_children n) ks
          (Insertion-IsClean i (found-IsClean seg (static_children n) ks hit).0))
  Insertion-IsClean (makes_static {n} miss plain i) k = with_children-IsClean n _ k (
      child-AreClean _ _ _ plain (Insertion-IsClean i (empty_node-IsClean H))
        (static_children-AreClean n k))
  Insertion-IsClean (makes_param {n} miss braces long free i) k =
      with_param-IsClean n _ k
        (present-IsCleanParam _ _ (Insertion-IsClean i (empty_node-IsClean H)))
  Insertion-IsClean (refuses braces why) k = k
