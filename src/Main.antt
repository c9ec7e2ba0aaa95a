-- ===== src/Main.antt =====
-- src/main.cc: the two routes that the program registers, and what they make of a request path.
use h2_server.Prelude.{
  ◌≡◌, refl, Option, none, some, List, [], ◌∷◌, Bytes, bytes, same, if◌then◌else◌, arith,
}
use h2_server.Router.{
  Method, get, post, Node, node, child, nil, present, absent, empty_node, add, resolve,
  find_handler_recursive,
}
use h2_server.Router.{is_param, insert_recursive, handler, set_handler, find_child, replace_child}
use h2_server.Router.Segments.{split_path_segments}

-- The handlers of src/handler.h.
pub data AppHandler : Type 0 where
  downloader uploader : AppHandler

-- `server.add_handler(...)`, twice
unfoldable pub routes : Node AppHandler
unfolding add
routes =
    let root = (add get (bytes "/files/{file_name}") (some downloader) empty_node).0 in
    (add post (bytes "/files") (some uploader) root).0

-- GET answers `/files/<name>` and POST answers `/files`.
abbrev pub served : Method → List Bytes → Option AppHandler × Bytes
served get (dir ∷ name ∷ []) =
    if same (bytes "files") dir then (some downloader, name) else (none, [])
served post (dir ∷ []) = if same (bytes "files") dir then (some uploader, []) else (none, [])
served _ _ = (none, [])

-- The tree that the two calls build.
abbrev files_node : Node AppHandler
files_node =
    node nil (present (bytes "file_name") (node nil absent (some downloader) none)) none
      (some uploader)

routes-tree : routes ≡ node (child (bytes "files") files_node nil) absent none none
unfolding routes insert_recursive is_param set_handler find_child replace_child split_path_segments
    same
routes-tree = refl

find-served :
    (method : Method) (segs : List Bytes)
    → find_handler_recursive method segs
        (node (child (bytes "files") files_node nil) absent none none)
        []
      ≡ served method segs
unfolding find_handler_recursive handler find_child
find-served get [] = refl
find-served post [] = refl
find-served get (dir ∷ []) = ground arith
find-served post (dir ∷ []) = ground arith
find-served get (dir ∷ name ∷ []) = ground arith
find-served post (dir ∷ name ∷ []) = ground arith
find-served get (dir ∷ name ∷ x ∷ rest) = ground arith
find-served post (dir ∷ name ∷ x ∷ rest) = ground arith

-- With the two routes of the program, a request is answered exactly so: GET for `files` and one
-- more segment goes to the downloader with that segment, POST for `files` alone to the uploader,
-- and everything else to no handler.
pub resolve-routes :
    (method : Method) (uri : Bytes)
    → resolve method uri routes ≡ served method (split_path_segments uri)
unfolding resolve
resolve-routes method uri = rw routes-tree (find-served method (split_path_segments uri))
