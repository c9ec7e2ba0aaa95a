-- ===== src/Router/Print/Complete.antt =====
-- Every entry of the table is printed.
use h2_server.Prelude.{
  ◌≡◌, refl, sym, subst, inl, inr, some, List, [], ◌∷◌, ◌++◌, Bytes, same, eq_of_same, append_assoc,
  append-nil, Option-cases, Bool-cases, arith,
}
use h2_server.Router.{
  Method, get, post, Node, node, Children, nil, child, present, handler, find_child,
  static_children, param_child,
}
use h2_server.Router.Table.Insertion.{Param-cases}
use h2_server.Router.Table.{RouteSegment, static, param, entry}
use h2_server.Router.Print.{
  Line, braced, print_handler, print_children, print_param, traverse_print, Shows, Contains,
}

pub Contains-left : (x : Line) (xs ys : List Line) → Contains x xs → Contains x (xs ++ ys)
Contains-left x [] ys c = absurd c
Contains-left x (z ∷ xs) ys (inl e) = inl e
Contains-left x (z ∷ xs) ys (inr c) = inr (Contains-left x xs ys c)

pub Contains-right : (x : Line) (xs ys : List Line) → Contains x ys → Contains x (xs ++ ys)
Contains-right x [] ys c = c
Contains-right x (z ∷ xs) ys c = inr (Contains-right x xs ys c)

module _ {H : Type 0} where
  handler-Contains :
      (method : Method) (segs : List Bytes) (n : Node H) (h : H)
      → handler method n ≡ some h
      → Contains (method, segs) (traverse_print segs n)
  unfolding handler traverse_print
  handler-Contains get segs (node cs p g q) h e = Contains-right _ (print_children segs cs) _ (
      Contains-right _ (print_param segs p) _ (
        Contains-left _ (print_handler get segs g) _
          (subst (λ o. Contains (get, segs) (print_handler get segs o)) (sym e) (inl refl))))
  handler-Contains post segs (node cs p g q) h e = Contains-right _ (print_children segs cs) _ (
      Contains-right _ (print_param segs p) _ (
        Contains-right _ (print_handler get segs g) _
          (subst (λ o. Contains (post, segs) (print_handler post segs o)) (sym e) (inl refl))))

  children-Contains :
      (line : Line) (segs : List Bytes) (key : Bytes) (cs : Children H) (c : Node H)
      → find_child key cs ≡ some c
      → Contains line (traverse_print (segs ++ key ∷ []) c)
      → Contains line (print_children segs cs)
  unfolding find_child traverse_print
  children-Contains line segs key nil c e m = absurd cc
  children-Contains line segs key (child k n cs) c e m = elim (Bool-cases (same k key)) [
    | inl hit ↦
        let here : n ≡ c = ground arith in
        Contains-left line (traverse_print (segs ++ k ∷ []) n) (print_children segs cs) (
          subst (λ x. Contains line (traverse_print (segs ++ k ∷ []) x)) (sym here)
            (subst (λ x. Contains line (traverse_print (segs ++ x ∷ []) c))
              (sym (eq_of_same k key hit)) m))
    | inr miss ↦
        Contains-right line (traverse_print (segs ++ k ∷ []) n) (print_children segs cs)
          (children-Contains line segs key cs c (rw miss at e) m)
  ]

  static-Contains :
      (line : Line) (segs : List Bytes) (key : Bytes) (n c : Node H)
      → find_child key (static_children n) ≡ some c
      → Contains line (traverse_print (segs ++ key ∷ []) c)
      → Contains line (traverse_print segs n)
  unfolding traverse_print
  static-Contains line segs key (node cs p g q) c e m =
      Contains-left line (print_children segs cs) _ (children-Contains line segs key cs c e m)

  param-Contains :
      (line : Line) (segs : List Bytes) (name : Bytes) (n c : Node H)
      → param_child n ≡ present name c
      → Contains line (traverse_print (segs ++ braced name ∷ []) c)
      → Contains line (traverse_print segs n)
  unfolding traverse_print
  param-Contains line segs name (node cs p g q) c e m =
      Contains-right line (print_children segs cs) _ (
        Contains-left line (print_param segs p) _
          (subst (λ x. Contains line (print_param segs x)) (sym e) m))

  -- Every handler of the tree is printed, on a line that shows its method and its route.
  pub entry-Contains :
      (method : Method) (route : List RouteSegment) (segs : List Bytes) (n : Node H) (h : H)
      → entry method route n ≡ some h
      → (shown : List Bytes) × Shows route shown
        × Contains (method, segs ++ shown) (traverse_print segs n)
  unfolding entry
  entry-Contains method [] segs n h e = (
    [],
    tt,
    subst (λ x. Contains (method, x) (traverse_print segs n)) (sym (append-nil segs))
        (handler-Contains method segs n h e),
  )
  entry-Contains method (static key ∷ route) segs n h e =
      elim (Option-cases (find_child key (static_children n))) [
        | inl missing ↦ absurd (ground arith)
        | inr (c, found) ↦
            let below : entry method route c ≡ some h = ground arith in
            let (shown, shows, there) = entry-Contains method route (segs ++ key ∷ []) c h below in
            (
              key ∷ shown,
              (refl, shows),
              static-Contains (method, segs ++ key ∷ shown) segs key n c found
                  (subst (λ x. Contains (method, x) (traverse_print (segs ++ key ∷ []) c))
                    (append_assoc segs (key ∷ []) shown) there),
            )
      ]
  entry-Contains method (param ∷ route) segs n h e = elim (Param-cases (param_child n)) [
    | inl missing ↦ absurd (ground arith)
    | inr (name, c, found) ↦
        let below : entry method route c ≡ some h = ground arith in
        let (shown, shows, there) =
          entry-Contains method route (segs ++ braced name ∷ []) c h below in
        (
          braced name ∷ shown,
          ((name, refl), shows),
          param-Contains (method, segs ++ braced name ∷ shown) segs name n c found
              (subst (λ x. Contains (method, x) (traverse_print (segs ++ braced name ∷ []) c))
                (append_assoc segs (braced name ∷ []) shown) there),
        )
  ]
