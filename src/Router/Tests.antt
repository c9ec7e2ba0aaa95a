-- ===== src/Router/Tests.antt =====
-- The router on concrete paths and trees.
use h2_server.Prelude.{
  ◌≡◌, refl, false, Option, some, List, [], ◌∷◌, ◌++◌, Bytes, bytes, ℕ, All, if◌then◌else◌, ◌&&◌,
  arith,
}
use h2_server.Router.{
  Method, get, post, Node, empty_node, add, resolve, is_param, insert_recursive, find_child,
  set_handler,
}
use h2_server.Router.Segments.{split_path_segments}
use h2_server.Router.Segments.Laws.{IsSegment, segments_of, split_path_segments-join}
use h2_server.Router.Table.{
  RouteSegment, entry, candidates, first_entry, same_method, same_route, route_of,
}
use h2_server.Router.Table.Clean.{IsClean, empty_node-IsClean}
use h2_server.Router.Table.Lookup.{resolve-eq-first_entry}
use h2_server.Router.Print.{joined, lines, IsLine, Contains, print}
use h2_server.Router.Print.Sound.{IsMap}
use h2_server.Router.Print.Maps.{empty_node-IsMap}
use h2_server.Router.Print.Entries.{print-entries}
use h2_server.Router.Table.Insert.{add-table, add-twice_refused}

abbrev fresh : Node ℕ
fresh = empty_node

abbrev handler_of : ℕ → Option ℕ
handler_of = some

abbrev parts : List (ℕ × Bytes)
parts = (0, bytes "files") ∷ (2, bytes "a.txt") ∷ []

parts-IsSegment : All IsSegment (segments_of parts)
parts-IsSegment = (((λ e. cc), omega arith), (((λ e. cc), omega arith), tt))

split_path_segments-join_example :
    split_path_segments (bytes "/files///a.txt/") ≡ bytes "files" ∷ bytes "a.txt" ∷ []
split_path_segments-join_example = split_path_segments-join parts 1 parts-IsSegment

abbrev users : Bytes
users = bytes "/users/{id}"

resolve-eq-first_entry_example :
    resolve get (bytes "/users/7") (add get users (handler_of 3) fresh).0
    ≡ first_entry get
        (split_path_segments (bytes "/users/7"))
        (add get users (handler_of 3) fresh).0
        []
        (candidates (split_path_segments (bytes "/users/7")))
resolve-eq-first_entry_example =
    resolve-eq-first_entry get (bytes "/users/7") (add get users (handler_of 3) fresh).0

add-table_example :
    let (root', done) = add get users (handler_of 3) fresh in
    IsClean root'
    × ((method' : Method) (route : List RouteSegment)
        → entry method' route root' ≡ (
            if done
              && (same_method get method'
                  && same_route (route_of (split_path_segments users)) route)
            then handler_of 3
            else entry method' route fresh))
add-table_example = add-table get users (handler_of 3) fresh (empty_node-IsClean ℕ)

add-twice_refused_example :
    (add post users (handler_of 4) (add get users (handler_of 3) fresh).0).1 ≡ false
unfolding add split_path_segments is_param insert_recursive find_child set_handler
add-twice_refused_example =
    add-twice_refused get post users (handler_of 3) (handler_of 4) fresh (empty_node-IsClean ℕ) refl
      refl

print-entries_example :
    let root' = (add get users (handler_of 3) fresh).0 in
    IsMap root'
    × (print root' ≡ joined (lines root'))
    × ((m : Method) (route : List RouteSegment) (x : ℕ)
        → entry m route root' ≡ some x
        → (text : Bytes) × IsLine m route text × Contains text (lines root'))
    × ((text : Bytes)
        → Contains text (lines root')
        → (m : Method) × (route : List RouteSegment) × (x : ℕ) × (entry m route root' ≡ some x)
          × IsLine m route text)
print-entries_example = print-entries get users (handler_of 3) fresh (empty_node-IsMap ℕ)

-- A router with one route prints it.
printed : print (add get users (handler_of 3) fresh).0 ≡ bytes "GET /users/{id}" ++ 10 ∷ []
unfolding print add split_path_segments is_param insert_recursive find_child set_handler
printed = refl
