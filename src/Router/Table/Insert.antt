-- ===== src/Router/Table/Insert.antt =====
-- `insert_recursive` against the table: one entry is written, or none.
use h2_server.Prelude.{
  ◌≡◌, ◌-◌, length, take, drop, refl, ap, ◌∙◌, true, false, Bool, ◌&&◌, Option, none, some, List,
  [], ◌∷◌, Bytes, arith, same, same_refl, same_iff, if◌then◌else◌,
}
use h2_server.Router.{
  Method, get, post, Node, node, Children, nil, child, ParamChild, present, empty_node,
  static_children, param_child, handler, set_handler, find_child, replace_child, with_children,
  with_param, insert_recursive, add,
}
use h2_server.Router.Segments.{split_path_segments}
use h2_server.Router.Table.{
  RouteSegment, static, param, route_of, entry, same_method, same_route, has_param,
}
use h2_server.Router.Table.Insertion.{
  Insertion, ends, descends, makes_static, makes_param, refuses, insertion,
}
use h2_server.Router.Table.Clean.{
  IsClean, Insertion-IsClean, static_children-AreClean, found-IsClean, empty_node-IsClean,
}

module _ {H : Type 0} where
  find_child-replace_child :
      (seg k : Bytes) (c' c : Node H) (cs : Children H)
      → find_child seg cs ≡ some c
      → find_child k (replace_child seg c' cs) ≡ (if same seg k then some c' else find_child k cs)
  unfolding find_child replace_child
  find_child-replace_child seg k c' c nil e = cc
  find_child-replace_child seg k c' c (child key m cs) e = ground (
    arith,
    find_child-replace_child seg k c' c cs,
    same_iff key seg,
    same_iff key k,
    same_iff seg k,
  )

  entry-empty_node :
      (method : Method) (route : List RouteSegment) → entry method route (empty_node {H = H}) ≡ none
  unfolding entry handler find_child
  entry-empty_node get [] = refl
  entry-empty_node post [] = refl
  entry-empty_node method (static key ∷ route) = refl
  entry-empty_node method (param ∷ route) = refl

  module _ (method' : Method) where
    entry-set_handler :
        (method : Method) (h : Option H) (n : Node H) (route : List RouteSegment)
        → entry method' route (set_handler method h n)
          ≡ (if same_method method method' && same_route [] route then h else entry method' route n)
    unfolding entry handler set_handler
    entry-set_handler get h (node cs p g q) [] = ground arith
    entry-set_handler post h (node cs p g q) [] = ground arith
    entry-set_handler get h (node cs p g q) (x ∷ route) = ground arith
    entry-set_handler post h (node cs p g q) (x ∷ route) = ground arith

    -- The table changes under one method and one route where the call succeeds, and nowhere where
    -- it fails.
    entry-Insertion :
        {method : Method} {h : Option H} {segs : List Bytes} {n n' : Node H} {done : Bool}
        → Insertion method h segs n n' done
        → IsClean n
        → (route : List RouteSegment)
        → entry method' route n' ≡ (
            if done && (same_method method method' && same_route (route_of segs) route)
            then h
            else entry method' route n)
    unfolding entry handler find_child
    entry-Insertion {method} {h} (ends n) k route = entry-set_handler method h n route
    entry-Insertion (refuses braces why) k route = refl
    entry-Insertion (descends {seg} {segs} {n = node cs p g q} {c} {c'} hit i) k [] = ground arith
    entry-Insertion (descends {seg} {segs} {n = node cs p g q} {c} {c'} hit i) k (param ∷ route) =
        let plain = (found-IsClean seg cs (static_children-AreClean (node cs p g q) k) hit).1 in
        ground arith
    entry-Insertion (descends {seg} {segs} {n = node cs p g q} {c} {c'} hit i) k
          (static key ∷ route) =
        let (clean, plain) =
          found-IsClean seg cs (static_children-AreClean (node cs p g q) k) hit in
        ground (
          arith,
          find_child-replace_child seg key c' c cs hit,
          entry-Insertion i clean route,
          same_iff seg key,
        )
    entry-Insertion (makes_static {seg} {segs} {n = node cs p g q} {c'} miss plain i) k [] =
        ground arith
    entry-Insertion (makes_static {seg} {segs} {n = node cs p g q} {c'} miss plain i) k
          (param ∷ route) =
        ground arith
    entry-Insertion (makes_static {seg} {segs} {n = node cs p g q} {c'} miss plain i) k
          (static key ∷ route) =
        ground (
          arith,
          entry-Insertion i (empty_node-IsClean H) route,
          entry-empty_node method' route,
          same_iff seg key,
        )
    entry-Insertion (makes_param {seg} {segs} {n = node cs p g q} {c'} miss braces long free i) k
          [] =
        ground arith
    entry-Insertion (makes_param {seg} {segs} {n = node cs p g q} {c'} miss braces long free i) k
          (static key ∷ route) =
        ground arith
    entry-Insertion (makes_param {seg} {segs} {n = node cs p g q} {c'} miss braces long free i) k
          (param ∷ route) =
        ground
          (arith, entry-Insertion i (empty_node-IsClean H) route, entry-empty_node method' route)

  -- `Router::add` keeps the tree clean, and writes one entry of the table where it succeeds: that
  -- of its method and of the route that its path spells. Where it fails no entry changes.
  pub add-table :
      (method : Method) (uri : Bytes) (h : Option H) (root : Node H)
      → IsClean root
      → let (root', done) = add method uri h root in
        IsClean root'
        × ((method' : Method) (route : List RouteSegment)
            → entry method' route root' ≡ (
                if done
                  && (same_method method method'
                      && same_route (route_of (split_path_segments uri)) route)
                then h
                else entry method' route root))
  unfolding add
  add-table method uri h root k =
      let i = insertion method h (split_path_segments uri) root in
      (Insertion-IsClean i k, λ method' route. entry-Insertion method' i k route)

  -- A route without parameters is never refused.
  Insertion-static :
      {method : Method} {h : Option H} {segs : List Bytes} {n n' : Node H} {done : Bool}
      → Insertion method h segs n n' done
      → has_param (route_of segs) ≡ false
      → done ≡ true
  Insertion-static (ends n) e = refl
  Insertion-static (descends {seg} {segs} hit i) e = Insertion-static i (ground arith)
  Insertion-static (makes_static miss plain i) e = Insertion-static i (ground arith)
  Insertion-static (makes_param miss braces long free i) e = ground arith
  Insertion-static (refuses braces why) e = ground arith

  find_again :
      (seg : Bytes) (c' c : Node H) (n : Node H)
      → find_child seg (static_children n) ≡ some c
      → find_child seg
          (static_children (with_children (replace_child seg c' (static_children n)) n))
        ≡ some c'
  find_again seg c' c (node cs p g q) hit =
      find_child-replace_child seg seg c' c cs hit
      ∙ ap (λ b. if b then some c' else find_child seg cs) (same_refl seg)

  find_made :
      (seg : Bytes) (c' n : Node H)
      → find_child seg (static_children (with_children (child seg c' (static_children n)) n))
        ≡ some c'
  unfolding find_child
  find_made seg c' (node cs p g q) =
      ap (λ b. if b then some c' else find_child seg cs) (same_refl seg)

  beside_param :
      (p : ParamChild H) (n : Node H)
      → (static_children (with_param p n) ≡ static_children n) × (param_child (with_param p n) ≡ p)
  beside_param p (node cs _ g q) = (refl, refl)

  -- Once a route with a parameter stands, its path is refused, for every method.
  Insertion-twice :
      {method : Method} {h : Option H} {segs : List Bytes} {n n' : Node H} {done : Bool}
      → (method' : Method) (h' : Option H) → Insertion method h segs n n' done
      → IsClean n
      → done ≡ true
      → has_param (route_of segs) ≡ true
      → (insert_recursive method' segs n' h').1 ≡ false
  unfolding insert_recursive
  Insertion-twice method' h' (ends n) k d e = cc
  Insertion-twice method' h' (refuses braces why) k d e = cc
  Insertion-twice method' h' (descends {seg} {segs} {n} {c} {c'} hit i) k d e =
      let (clean, plain) =
        found-IsClean seg (static_children n) (static_children-AreClean n k) hit in
      rw (find_again seg c' c n hit, insert_recursive)
        (Insertion-twice method' h' i clean d (ground arith))
  Insertion-twice method' h' (makes_static {seg} {segs} {n} {c'} miss plain i) k d e =
      rw (find_made seg c' n, insert_recursive)
        (Insertion-twice method' h' i (empty_node-IsClean H) d (ground arith))
  Insertion-twice method' h' (makes_param {seg} {segs} {n} {c'} miss braces long free i) k d e =
      let (kept, taken) = beside_param (present (take (length seg - 2) (drop 1 seg)) c') n in
      rw (ap (find_child seg) kept ∙ miss, braces, long, taken, insert_recursive)

  -- After a path with a parameter segment has been added to a clean tree, adding the same path
  -- again fails, for the same method and for the other one: a parameter node is never shared.
  pub add-twice_refused :
      (method method' : Method) (uri : Bytes) (h h' : Option H) (root : Node H)
      → IsClean root
      → (add method uri h root).1 ≡ true
      → has_param (route_of (split_path_segments uri)) ≡ true
      → (add method' uri h' (add method uri h root).0).1 ≡ false
  unfolding add
  add-twice_refused method method' uri h h' root k d e =
      Insertion-twice method' h' (insertion method h (split_path_segments uri) root) k d e

  -- A path without parameter segments is always accepted.
  pub add-static_accepted :
      (method : Method) (uri : Bytes) (h : Option H) (root : Node H)
      → has_param (route_of (split_path_segments uri)) ≡ false
      → (add method uri h root).1 ≡ true
  unfolding add
  add-static_accepted method uri h root e =
      Insertion-static (insertion method h (split_path_segments uri) root) e
