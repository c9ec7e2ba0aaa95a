-- ===== src/Router/Print/Sound.antt =====
-- Every line that is printed is an entry of the table.
use h2_server.Prelude.{
  ◌≡◌, refl, sym, ap, ◌∙◌, ◌⊎◌, inl, inr, Option, none, some, List, [], ◌∷◌, ◌++◌, Bytes, same,
  same_refl, eq_of_same, append_assoc, append-nil, Bool-cases,
}
use h2_server.Router.{
  Method, get, post, Node, node, Children, nil, child, ParamChild, absent, present, handler,
  find_child, static_children, param_child,
}
use h2_server.Router.Table.{RouteSegment, static, param, entry}
use h2_server.Router.Print.{
  Line, braced, print_handler, print_children, print_param, traverse_print, Shows, Contains,
}

-- The keys of every map of children are distinct.
unfoldable mutual
  pub IsMap : {H : Type 0} → Node H → Type 0
  IsMap (node cs p g q) = AreMaps cs × IsMapParam p

  pub AreMaps : {H : Type 0} → Children H → Type 0
  AreMaps nil = Unit
  AreMaps (child key n cs) = (find_child key cs ≡ none) × IsMap n × AreMaps cs

  pub IsMapParam : {H : Type 0} → ParamChild H → Type 0
  IsMapParam absent = Unit
  IsMapParam (present name n) = IsMap n

Contains-cases :
    (x : Line) (xs ys : List Line) → Contains x (xs ++ ys) → Contains x xs ⊎ Contains x ys
Contains-cases x [] ys c = inr c
Contains-cases x (z ∷ xs) ys (inl e) = inl (inl e)
Contains-cases x (z ∷ xs) ys (inr c) = elim (Contains-cases x xs ys c) [
  | inl left ↦ inl (inr left)
  | inr right ↦ inr right
]

module _ {H : Type 0} (line : Line) where
  -- The line shows a route from here on, under which a handler stands for its method.
  abbrev pub Comes : List Bytes → Node H → Type 0
  Comes segs n =
      (route : List RouteSegment) × (shown : List Bytes) × (line.1 ≡ segs ++ shown)
      × Shows route shown
      × (h : H) × (entry line.0 route n ≡ some h)

  abbrev ComesChild : List Bytes → Children H → Type 0
  ComesChild segs cs =
      (key : Bytes) × (c : Node H) × (find_child key cs ≡ some c) × Comes (segs ++ key ∷ []) c

  handler-Comes :
      (method : Method) (segs : List Bytes) (n : Node H)
      → Contains line (print_handler method segs (handler method n))
      → Comes segs n
  unfolding entry
  handler-Comes method segs n m = by_handler (handler method n) refl m
    where
      by_handler :
          (o : Option H)
          → handler method n ≡ o
          → Contains line (print_handler method segs o)
          → Comes segs n
      by_handler none e m = absurd m
      by_handler (some h) e (inl here) =
          let same_method : line.0 ≡ method = ap (λ l. l.0) here in
          let same_segs : line.1 ≡ segs = ap (λ l. l.1) here in
          ([], [], same_segs ∙ sym (append-nil segs), tt, h, rw same_method e)
      by_handler (some h) e (inr c) = absurd c

  -- From a child to its parent.
  static-Comes :
      (segs : List Bytes) (n : Node H) → ComesChild segs (static_children n) → Comes segs n
  unfolding entry
  static-Comes segs n (key, c, found, (route, shown, e, shows, h, stands)) = (
    static key ∷ route,
    key ∷ shown,
    e ∙ append_assoc segs (key ∷ []) shown,
    (refl, shows),
    h,
    rw (found, entry) stands,
  )

  param-Comes :
      (segs : List Bytes) (name : Bytes) (n c : Node H)
      → param_child n ≡ present name c
      → Comes (segs ++ braced name ∷ []) c
      → Comes segs n
  unfolding entry
  param-Comes segs name n c found (route, shown, e, shows, h, stands) = (
    param ∷ route,
    braced name ∷ shown,
    e ∙ append_assoc segs (braced name ∷ []) shown,
    ((name, refl), shows),
    h,
    rw (found, entry) stands,
  )

  -- A child that stands further back is found there.
  behind :
      (segs : List Bytes) (key : Bytes) (n : Node H) (cs : Children H)
      → find_child key cs ≡ none
      → ComesChild segs cs
      → ComesChild segs (child key n cs)
  unfolding find_child
  behind segs key n cs free (k, c, found, comes) = elim (Bool-cases (same key k)) [
    | inl hit ↦ let key_is : key ≡ k = eq_of_same key k hit in absurd (cc (free, found, key_is))
    | inr miss ↦ (k, c, rw miss found, comes)
  ]

  -- Behind the children: the parameter child, or the node's own handlers.
  rest-Comes :
      (segs : List Bytes) (n : Node H) (xs : List Line)
      → (Contains line xs → Comes segs n)
      → Contains line (
          xs
          ++ (print_handler get segs (handler get n) ++ print_handler post segs (handler post n)))
      → Comes segs n
  rest-Comes segs n xs below m =
      let gets = print_handler get segs (handler get n) in
      let posts = print_handler post segs (handler post n) in
      elim (Contains-cases line xs (gets ++ posts) m) [
        | inl above ↦ below above
        | inr own ↦ elim (Contains-cases line gets posts own) [
          | inl g ↦ handler-Comes get segs n g
          | inr q ↦ handler-Comes post segs n q
        ]
      ]

  mutual
    unfolding traverse_print IsMap find_child handler

    pub node-Comes :
        (segs : List Bytes) (n : Node H)
        → IsMap n
        → Contains line (traverse_print segs n)
        → Comes segs n
    node-Comes segs (node cs p g q) k m = elim (Contains-cases line (print_children segs cs) _ m) [
      | inl above ↦ static-Comes segs (node cs p g q) (children-Comes segs cs k.0 above)
      | inr m' ↦
          rest-Comes segs (node cs p g q) (print_param segs p) (below-Comes segs cs p g q k.1) m'
    ]

    below-Comes :
        (segs : List Bytes) (cs : Children H) (p : ParamChild H) (g q : Option H)
        → IsMapParam p
        → Contains line (print_param segs p)
        → Comes segs (node cs p g q)
    below-Comes segs cs absent g q k m = absurd m
    below-Comes segs cs (present name c) g q k m =
        param-Comes segs name (node cs (present name c) g q) c refl
          (node-Comes (segs ++ braced name ∷ []) c k m)

    children-Comes :
        (segs : List Bytes) (cs : Children H)
        → AreMaps cs
        → Contains line (print_children segs cs)
        → ComesChild segs cs
    children-Comes segs nil k m = absurd m
    children-Comes segs (child key n cs) k m =
        elim (Contains-cases line (traverse_print (segs ++ key ∷ []) n) (print_children segs cs)
          m) [
            | inl here ↦ (key, n, rw (same_refl key) refl, node-Comes (segs ++ key ∷ []) n k.1 here)
            | inr further ↦ behind segs key n cs k.0 (children-Comes segs cs k.2 further)
          ]
