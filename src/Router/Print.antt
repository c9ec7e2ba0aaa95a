-- ===== src/Router/Print.antt =====
-- The printing of a router: `Router::traverse_print` and `operator<<` of src/router.cc. The children come in
-- the order of their list, which stands for the map's own.
pub mod Complete
pub mod Sound
pub mod Maps
pub mod Entries
use h2_server.Prelude.{ℕ, Option, none, some, List, [], ◌∷◌, ◌++◌, Bytes, bytes, map, ◌≡◌, ◌⊎◌}
use h2_server.Router.{
  Method, get, post, Node, node, Children, nil, child, ParamChild, absent, present,
}
use h2_server.Router.Table.{RouteSegment, static, param}

-- A line, before it is written out.
abbrev pub Line : Type 0
Line = Method × List Bytes

-- `"{" + current_node->param_child_name + "}"`
abbrev pub braced : Bytes → Bytes
braced name = b'{' ∷ name ++ b'}' ∷ []

module _ {H : Type 0} where
  abbrev pub print_handler : Method → List Bytes → Option H → List Line
  print_handler method segs none = []
  print_handler method segs (some h) = (method, segs) ∷ []

  unfoldable mutual
    pub traverse_print : List Bytes → Node H → List Line
    traverse_print segs (node cs p g q) =
        print_children segs cs
        ++ (print_param segs p ++ (print_handler get segs g ++ print_handler post segs q))

    pub print_children : List Bytes → Children H → List Line
    print_children segs nil = []
    print_children segs (child key n cs) =
        traverse_print (segs ++ key ∷ []) n ++ print_children segs cs

    pub print_param : List Bytes → ParamChild H → List Line
    print_param segs absent = []
    print_param segs (present name n) = traverse_print (segs ++ braced name ∷ []) n

abbrev pub slashed : List Bytes → Bytes
slashed [] = 10 ∷ []
slashed (seg ∷ segs) = b'/' ∷ seg ++ slashed segs

-- A line, with its end.
abbrev pub text_of : Line → Bytes
text_of (get, segs) = bytes "GET " ++ slashed segs
text_of (post, segs) = bytes "POST" ++ slashed segs

abbrev pub joined : List Bytes → Bytes
joined [] = []
joined (line ∷ lines) = line ++ joined lines

-- The lines as they are written.
unfoldable pub lines : {H : Type 0} → Node H → List Bytes
unfolding traverse_print
lines root = map text_of (traverse_print [] root)

unfoldable pub print : {H : Type 0} → Node H → Bytes
unfolding lines
print root = joined (lines root)

-- How a route is printed: the segments of its static parts, and a name in braces for a parameter.
abbrev pub Shows : List RouteSegment → List Bytes → Type 0
Shows [] [] = Unit
Shows (static key ∷ route) (seg ∷ segs) = (seg ≡ key) × Shows route segs
Shows (param ∷ route) (seg ∷ segs) = ((name : Bytes) × (seg ≡ braced name)) × Shows route segs
Shows _ _ = ⊥

abbrev pub Contains : {A : Type 0} → A → List A → Type 0
Contains line [] = ⊥
Contains line (x ∷ xs) = (line ≡ x) ⊎ Contains line xs

-- The text of a route: each segment behind a slash, a parameter in braces, and the end of the line.
abbrev pub IsPath : List RouteSegment → Bytes → Type 0
IsPath [] path = path ≡ 10 ∷ []
IsPath (static key ∷ route) path =
    (rest : Bytes) × (path ≡ bytes "/" ++ (key ++ rest)) × IsPath route rest
IsPath (param ∷ route) path =
    (name : Bytes) × (rest : Bytes) × (path
      ≡ bytes "/" ++ ((bytes "{" ++ (name ++ bytes "}")) ++ rest))
    × IsPath route rest

-- The line of a method and a route: GET with a space, or POST without one, and the path.
abbrev pub IsLine : Method → List RouteSegment → Bytes → Type 0
IsLine get route text = (path : Bytes) × (text ≡ bytes "GET " ++ path) × IsPath route path
IsLine post route text = (path : Bytes) × (text ≡ bytes "POST" ++ path) × IsPath route path
