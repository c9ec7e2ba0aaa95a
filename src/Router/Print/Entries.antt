-- ===== src/Router/Print/Entries.antt =====
-- The lines that are printed are the entries of the table.
use h2_server.Prelude.{
  ◌≡◌, refl, sym, ap, subst, Option, some, List, [], ◌∷◌, ◌++◌, map, Bytes, bytes, inl, inr,
}
use h2_server.Router.{Method, get, post, Node, add}
use h2_server.Router.Table.{RouteSegment, static, param, entry}
use h2_server.Router.Print.{
  slashed, text_of, traverse_print, joined, lines, print, Shows, Contains, IsPath, IsLine,
}
use h2_server.Router.Print.Complete.{entry-Contains}
use h2_server.Router.Print.Maps.{add-IsMap}
use h2_server.Router.Print.Sound.{IsMap, node-Comes}

Contains-map :
    {A B : Type 0} (f : A → B) (x : A) (xs : List A) → Contains x xs → Contains (f x) (map f xs)
Contains-map f x [] c = c
Contains-map f x (y ∷ xs) (inl e) = inl (ap f e)
Contains-map f x (y ∷ xs) (inr c) = inr (Contains-map f x xs c)

Contains-map_inverse :
    {A B : Type 0} (f : A → B) (t : B) (xs : List A)
    → Contains t (map f xs)
    → (x : A) × (t ≡ f x) × Contains x xs
Contains-map_inverse f t [] c = absurd c
Contains-map_inverse f t (y ∷ xs) (inl e) = (y, e, inl refl)
Contains-map_inverse f t (y ∷ xs) (inr c) =
    let (x, e, c') = Contains-map_inverse f t xs c in (x, e, inr c')

slashed-IsPath :
    (route : List RouteSegment) (shown : List Bytes)
    → Shows route shown
    → IsPath route (slashed shown)
slashed-IsPath [] [] s = refl
slashed-IsPath [] (seg ∷ segs) s = absurd s
slashed-IsPath (static key ∷ route) [] s = absurd s
slashed-IsPath (param ∷ route) [] s = absurd s
slashed-IsPath (static key ∷ route) (seg ∷ segs) s =
    (slashed segs, ap (λ k. bytes "/" ++ (k ++ slashed segs)) s.0, slashed-IsPath route segs s.1)
slashed-IsPath (param ∷ route) (seg ∷ segs) ((name, e), s) =
    (name, slashed segs, ap (λ k. bytes "/" ++ (k ++ slashed segs)) e, slashed-IsPath route segs s)

text_of-IsLine :
    (m : Method) (route : List RouteSegment) (shown : List Bytes)
    → Shows route shown
    → IsLine m route (text_of (m, shown))
text_of-IsLine get route shown s = (slashed shown, refl, slashed-IsPath route shown s)
text_of-IsLine post route shown s = (slashed shown, refl, slashed-IsPath route shown s)

-- Let the keys of every map of children be distinct; then they are so behind `Router::add`, whether it
-- succeeds or not, and the text that the router then prints is made of lines, which are its entries: for
-- every route under which a handler stands for a method there is a line, GET with a space or POST, as the
-- method is, and the route's segments, each behind a slash, with a name in braces for a parameter; and
-- every line is that of such a method and route.
pub print-entries :
    {H : Type 0} (method : Method) (uri : Bytes) (h : Option H) (root : Node H)
    → IsMap root
    → let root' = (add method uri h root).0 in
      IsMap root'
      × (print root' ≡ joined (lines root'))
      × ((m : Method) (route : List RouteSegment) (x : H)
          → entry m route root' ≡ some x
          → (text : Bytes) × IsLine m route text × Contains text (lines root'))
      × ((text : Bytes)
          → Contains text (lines root')
          → (m : Method) × (route : List RouteSegment) × (x : H) × (entry m route root' ≡ some x)
            × IsLine m route text)
unfolding print lines
print-entries method uri h root k =
    let root' = (add method uri h root).0 in
    let k' = add-IsMap method uri h root k in
    (
      k',
      refl,
      λ m route x e.
          let (shown, shows, c) = entry-Contains m route [] root' x e in
          (
            text_of (m, shown),
            text_of-IsLine m route shown shows,
            Contains-map text_of (m, shown) (traverse_print [] root') c,
          ),
      λ text c.
          let ((m, shown), e, c') = Contains-map_inverse text_of text (traverse_print [] root') c in
          let (route, segs, same_segs, shows, x, stands) = node-Comes (m, shown) [] root' k' c' in
          (
            m,
            route,
            x,
            stands,
            subst (λ t. IsLine m route t) (sym e)
                (text_of-IsLine m route shown (subst (λ s. Shows route s) (sym same_segs) shows)),
          ),
    )
