-- ===== src/Router/Table/Lookup.antt =====
-- `find_handler_recursive` against the table.
use h2_server.Prelude.{
  ◌≡◌, refl, inl, inr, Option, none, some, List, [], ◌∷◌, ◌++◌, map, Bytes, arith, Option-cases,
}
use h2_server.Router.{
  Method, Node, absent, present, static_children, param_child, handler, find_child,
  find_handler_recursive, resolve,
}
use h2_server.Router.Segments.{split_path_segments}
use h2_server.Router.Table.Insertion.{Param-cases}
use h2_server.Router.Table.{RouteSegment, static, param, entry, candidates, first_entry}

module _ {H : Type 0} (method : Method) where
  -- A search that fails gives the caller's parameter back.
  find_restores :
      (segs : List Bytes) (n : Node H) (old : Bytes)
      → (find_handler_recursive method segs n old).0 ≡ none
      → (find_handler_recursive method segs n old).1 ≡ old
  unfolding find_handler_recursive
  find_restores [] n old e = refl
  find_restores (seg ∷ segs) n old e = elim (Option-cases (find_child seg (static_children n))) [
    | inl no_static ↦ elim (Param-cases (param_child n)) [
      | inl no_param ↦ ground arith
      | inr (name, d, hd) ↦ ground arith
    ]
    | inr (c, hc) ↦ elim (Param-cases (param_child n)) [
      | inl no_param ↦ ground (arith, find_restores segs c old)
      | inr (name, d, hd) ↦ ground (arith, find_restores segs c old)
    ]
  ]

  -- In a row of routes the first half goes first.
  first_entry-append :
      (segs : List Bytes) (n : Node H) (old : Bytes) (xs ys : List (List RouteSegment))
      → first_entry method segs n old (xs ++ ys) ≡ elim ((first_entry method segs n old xs).0) [
        | some h ↦ first_entry method segs n old xs
        | none ↦ first_entry method segs n old ys
      ]
  unfolding first_entry
  first_entry-append segs n old [] ys = refl
  first_entry-append segs n old (x ∷ xs) ys = ground (arith, first_entry-append segs n old xs ys)

  first_entry-static_miss :
      (seg : Bytes) (segs : List Bytes) (n : Node H) (old : Bytes) (xs : List (List RouteSegment))
      → find_child seg (static_children n) ≡ none
      → first_entry method (seg ∷ segs) n old (map (◌∷◌ (static seg)) xs) ≡ (none, old)
  unfolding first_entry entry
  first_entry-static_miss seg segs n old [] e = refl
  first_entry-static_miss seg segs n old (x ∷ xs) e =
      ground (arith, first_entry-static_miss seg segs n old xs e)

  first_entry-static :
      (seg : Bytes) (segs : List Bytes) (n c : Node H) (old : Bytes) (xs : List (List RouteSegment))
      → find_child seg (static_children n) ≡ some c
      → first_entry method (seg ∷ segs) n old (map (◌∷◌ (static seg)) xs)
        ≡ first_entry method segs c old xs
  unfolding first_entry entry
  first_entry-static seg segs n c old [] e = refl
  first_entry-static seg segs n c old (x ∷ xs) e =
      ground (arith, first_entry-static seg segs n c old xs e)

  first_entry-param_miss :
      (seg : Bytes) (segs : List Bytes) (n : Node H) (old : Bytes) (xs : List (List RouteSegment))
      → param_child n ≡ absent
      → first_entry method (seg ∷ segs) n old (map (◌∷◌ param) xs) ≡ (none, old)
  unfolding first_entry entry
  first_entry-param_miss seg segs n old [] e = refl
  first_entry-param_miss seg segs n old (x ∷ xs) e =
      ground (arith, first_entry-param_miss seg segs n old xs e)

  -- Below the parameter child the segment is captured, and given back if nothing is found.
  first_entry-param :
      (seg : Bytes) (segs : List Bytes) (n c : Node H) (name old : Bytes)
      (xs : List (List RouteSegment))
      → param_child n ≡ present name c
      → first_entry method (seg ∷ segs) n old (map (◌∷◌ param) xs)
        ≡ elim ((first_entry method segs c seg xs).0) [
          | some h ↦ first_entry method segs c seg xs
          | none ↦ (none, old)
        ]
  unfolding first_entry entry
  first_entry-param seg segs n c name old [] e = refl
  first_entry-param seg segs n c name old (x ∷ xs) e =
      ground (arith, first_entry-param seg segs n c name old xs e)

  last_segment :
      (n : Node H) (old : Bytes)
      → ◌≡◌ {A = Option H × Bytes} (handler method n, old) (first_entry method [] n old ([] ∷ []))
  unfolding first_entry entry
  last_segment n old = ground arith

  -- The search of the tree answers by the first fitting route, exact segments before parameters,
  -- that has a handler for the method, and captures what that route's last parameter stands for.
  pub find-eq-first_entry :
      (segs : List Bytes) (n : Node H) (old : Bytes)
      → find_handler_recursive method segs n old ≡ first_entry method segs n old (candidates segs)
  unfolding find_handler_recursive candidates
  find-eq-first_entry [] n old = last_segment n old
  find-eq-first_entry (seg ∷ segs) n old =
      let statics = map (◌∷◌ (static seg)) (candidates segs) in
      let params = map (◌∷◌ param) (candidates segs) in
      let row = first_entry-append (seg ∷ segs) n old statics params in
      elim (Option-cases (find_child seg (static_children n))) [
        | inl no_static ↦
            let left = first_entry-static_miss seg segs n old (candidates segs) no_static in
            elim (Param-cases (param_child n)) [
              | inl no_param ↦ ground (
                arith,
                row,
                left,
                first_entry-param_miss seg segs n old (candidates segs) no_param,
              )
              | inr (name, d, hd) ↦ ground (
                arith,
                row,
                left,
                first_entry-param seg segs n d name old (candidates segs) hd,
                find-eq-first_entry segs d seg,
              )
            ]
        | inr (c, hc) ↦
            let left = first_entry-static seg segs n c old (candidates segs) hc in
            elim (Param-cases (param_child n)) [
              | inl no_param ↦ ground (
                arith,
                row,
                left,
                first_entry-param_miss seg segs n old (candidates segs) no_param,
                find-eq-first_entry segs c old,
                find_restores segs c old,
              )
              | inr (name, d, hd) ↦ ground (
                arith,
                row,
                left,
                first_entry-param seg segs n d name old (candidates segs) hd,
                find-eq-first_entry segs c old,
                find-eq-first_entry segs d seg,
                find_restores segs c old,
              )
            ]
      ]

  -- `Router::resolve` answers every path by the first route that fits its segments, exact segments
  -- before parameters, under which a handler stands for the method, with the segment that the last
  -- parameter of that route stands for; where there is none, with no handler and no parameter.
  pub resolve-eq-first_entry :
      (uri : Bytes) (root : Node H)
      → resolve method uri root
        ≡ first_entry method
            (split_path_segments uri)
            root
            []
            (candidates (split_path_segments uri))
  unfolding resolve
  resolve-eq-first_entry uri root = find-eq-first_entry (split_path_segments uri) root []
