-- ===== src/Router/Table.antt =====
-- The router as a table: which handler stands under which route. A route is a list of static and of
-- parameter segments; the tree of src/router.cc answers by the first route that fits, statics
-- first.
pub mod Insertion
pub mod Clean
pub mod Lookup
pub mod Insert
use h2_server.Prelude.{
  Option, none, some, List, [], ◌∷◌, ◌++◌, Bytes, ◌≡◌, Bool, true, false, if◌then◌else◌, map, same,
  ◌&&◌,
}
use h2_server.Router.{
  Method, get, post, Node, ParamChild, absent, present, static_children, param_child, handler,
  find_child, is_param,
}

pub data RouteSegment : Type 0 where
  static : Bytes → RouteSegment
  param : RouteSegment

-- The route that `Router::add` reads from a segment of its argument.
abbrev pub route_segment : Bytes → RouteSegment
route_segment seg = if is_param seg then param else static seg

abbrev pub route_of : List Bytes → List RouteSegment
route_of = map route_segment

-- The segment under the last parameter of a route, or else the given text.
abbrev pub captured : List RouteSegment → List Bytes → Bytes → Bytes
captured [] segs old = old
captured (part ∷ route) [] old = old
captured (static key ∷ route) (seg ∷ segs) old = captured route segs old
captured (param ∷ route) (seg ∷ segs) old = captured route segs seg

-- The handler that stands under a route.
module _ {H : Type 0} where
  unfoldable pub entry : Method → List RouteSegment → Node H → Option H
  entry method [] n = handler method n
  entry method (static key ∷ route) n = elim (find_child key (static_children n)) [
    | none ↦ none
    | some c ↦ entry method route c
  ]
  entry method (param ∷ route) n = elim (param_child n) [
    | absent ↦ none
    | present name c ↦ entry method route c
  ]

-- The routes that fit a request, in the documented order: exact segments before parameters.
unfoldable pub candidates : List Bytes → List (List RouteSegment)
candidates [] = [] ∷ []
candidates (seg ∷ segs) =
    map (◌∷◌ (static seg)) (candidates segs) ++ map (◌∷◌ param) (candidates segs)

-- The first of the given routes under which a handler stands, with what it captures.
unfoldable pub first_entry :
    {H : Type 0}
    → Method
    → List Bytes
    → Node H
    → Bytes
    → List (List RouteSegment)
    → Option H × Bytes
first_entry method segs n old [] = (none, old)
first_entry method segs n old (route ∷ routes) = elim (entry method route n) [
  | some h ↦ (some h, captured route segs old)
  | none ↦ first_entry method segs n old routes
]

abbrev pub same_method : Method → Method → Bool
same_method get get = true
same_method post post = true
same_method _ _ = false

abbrev pub same_route : List RouteSegment → List RouteSegment → Bool
same_route [] [] = true
same_route (static key ∷ xs) (static seg ∷ ys) = same key seg && same_route xs ys
same_route (param ∷ xs) (param ∷ ys) = same_route xs ys
same_route _ _ = false

abbrev pub has_param : List RouteSegment → Bool
has_param [] = false
has_param (static key ∷ route) = has_param route
has_param (param ∷ route) = true
