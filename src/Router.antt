-- ===== src/Router.antt =====
-- src/router.h and src/router.cc: the tree of route segments. A text is the list of its bytes, and
-- `H` is what a non-empty `Handler` holds: the router only stores handlers and tests them.
pub mod Segments
pub mod Table
pub mod Print
mod Tests
use h2_server.Prelude.{
  ℕ, ◌-◌, Bool, true, false, ◌&&◌, Option, none, some, List, [], ◌∷◌, Bytes, same, ltb, leb, ◌==◌,
  if◌then◌else◌, length, take, drop, get_elem?,
}
use Segments.{split_path_segments}

-- `METHOD`, without its count `METHOD_MAX`
pub data Method : Type 0 where
  get post : Method

-- `RouterNode`: the static children, the one parameter child with its name, and the handlers for
-- GET and for POST.
mutual
  pub data Node (H : Type 0) : Type 0 where
    node : Children H → ParamChild H → Option H → Option H → Node H

  pub data Children (H : Type 0) : Type 0 where
    nil : Children H
    child : Bytes → Node H → Children H → Children H

  pub data ParamChild (H : Type 0) : Type 0 where
    absent : ParamChild H
    present : Bytes → Node H → ParamChild H

module _ {H : Type 0} where
  abbrev pub empty_node : Node H
  empty_node = node nil absent none none

  abbrev pub static_children : Node H → Children H
  static_children (node cs p g q) = cs

  abbrev pub param_child : Node H → ParamChild H
  param_child (node cs p g q) = p

  -- `handlers[method]`
  unfoldable pub handler : Method → Node H → Option H
  handler get (node cs p g q) = g
  handler post (node cs p g q) = q

  unfoldable pub set_handler : Method → Option H → Node H → Node H
  set_handler get h (node cs p g q) = node cs p h q
  set_handler post h (node cs p g q) = node cs p g h

  -- `static_children.find`
  unfoldable pub find_child : Bytes → Children H → Option (Node H)
  find_child seg nil = none
  find_child seg (child key n cs) = if same key seg then some n else find_child seg cs

  -- What a write through the pointer that `find_child` gave leaves in the map.
  unfoldable pub replace_child : Bytes → Node H → Children H → Children H
  replace_child seg n nil = nil
  replace_child seg n (child key m cs) =
      if same key seg then child key n cs else child key m (replace_child seg n cs)

  abbrev pub with_children : Children H → Node H → Node H
  with_children cs (node _ p g q) = node cs p g q

  abbrev pub with_param : ParamChild H → Node H → Node H
  with_param p (node cs _ g q) = node cs p g q

abbrev pub byte_is : Option ℕ → ℕ → Bool
byte_is none c = false
byte_is (some d) c = d == c

-- `begin->size() >= 2 && begin->front() == '{' && begin->back() == '}'`
unfoldable pub is_param : Bytes → Bool
is_param seg =
    leb 2 (length seg)
    && (byte_is (get_elem? seg 0) b'{' && byte_is (get_elem? seg (length seg - 1)) b'}')

module _ {H : Type 0} where
  -- `insert_recursive`: the node as the call leaves it, and its result.
  unfoldable pub insert_recursive : Method → List Bytes → Node H → Option H → Node H × Bool
  insert_recursive method [] current h = (set_handler method h current, true)
  insert_recursive method (seg ∷ segs) current h = elim (find_child seg (static_children current)) [
    | some found ↦
        let (found', done) = insert_recursive method segs found h in
        (with_children (replace_child seg found' (static_children current)) current, done)
    | none ↦ elim (is_param seg) [
      | true ↦ if ltb (length seg) 3 then (current, false) else elim (param_child current) [
        | present name n ↦ (current, false)
        | absent ↦
            let (made, done) = insert_recursive method segs empty_node h in
            (with_param (present (take (length seg - 2) (drop 1 seg)) made) current, done)
      ]
      | false ↦
          let (made, done) = insert_recursive method segs empty_node h in
          (with_children (child seg made (static_children current)) current, done)
    ]
  ]

  -- `find_handler_recursive`: the handler, and `out_param` as the call leaves it.
  unfoldable pub find_handler_recursive : Method → List Bytes → Node H → Bytes → Option H × Bytes
  find_handler_recursive method [] current out_param = (handler method current, out_param)
  find_handler_recursive method (seg ∷ segs) current out_param =
      let by_static : Option H × Bytes = elim (find_child seg (static_children current)) [
        | none ↦ (none, out_param)
        | some n ↦ find_handler_recursive method segs n out_param
      ] in
      let by_param : Option H × Bytes = elim (param_child current) [
        | absent ↦ (none, by_static.1)
        | present name n ↦
            let found = find_handler_recursive method segs n seg in
            elim found.0 [ some h ↦ found | none ↦ (none, by_static.1) ]
      ] in
      elim (by_static.0) [ some h ↦ by_static | none ↦ by_param ]

  -- `Router::add`: the router as the call leaves it, and its result.
  unfoldable pub add : Method → Bytes → Option H → Node H → Node H × Bool
  add method uri h root = insert_recursive method (split_path_segments uri) root h

  -- `Router::resolve`: the handler and the captured parameter.
  unfoldable pub resolve : Method → Bytes → Node H → Option H × Bytes
  resolve method uri root = find_handler_recursive method (split_path_segments uri) root []
