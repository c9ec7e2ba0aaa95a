-- ===== src/Multipart/Tests.antt =====
-- One upload, and a file system of functions from names to contents.
use h2_server.Prelude.{◌≡◌, refl, Bytes, bytes, true, Option, none, some, ◌++◌, same, if◌then◌else◌}
use h2_server.FileCache.{c_str}
use h2_server.Multipart.{
  find, starts_with, find_key, Parser, fresh, Effect, append_file, rename, write, extract_boundary,
}
use h2_server.Multipart.Disk.{FileSystem, old_content, act_all}
use h2_server.Multipart.Upload.{Part, IsUpload, body}
use h2_server.Multipart.Save.{write-files}
use h2_server.Multipart.Boundary.{Ending, at_semicolon, extract_boundary-Ending}

abbrev Files : Type 0
Files = Bytes → Option Bytes

put : Bytes → Option Bytes → Files → Files
put name content files other = if same name other then content else files other

act : Effect → Files → Files
unfolding put c_str
act (append_file name added) files =
    put (c_str name) (some (old_content (files (c_str name)) ++ added)) files
act (rename old new) files = elim (files (c_str old)) [
  | none ↦ files
  | some content ↦ put (c_str new) (some content) (put (c_str old) none files)
]

function_files : FileSystem Files
unfolding act put
function_files = record {
  content = λ files. files;
  act = act;
  can_append = λ s name added. true;
  can_rename = λ s old new. true;
  append_law = λ s name added other can. refl;
  rename_law = λ s old new content other can e. rw (e, act) refl;
}

abbrev dashes : Bytes
dashes = bytes "-----7f3a"

abbrev hello_part : Part
hello_part = record {
  preamble = bytes "--";
  head = bytes "Content-Disposition: form-data; name=\"f\"; ";
  name = bytes "hello.txt";
  tail = bytes "";
  line = bytes "hello";
  more = bytes "-------7f3a--";
}

hello_part-IsUpload : IsUpload dashes hello_part
unfolding find starts_with
hello_part-IsUpload = record {
  boundary_first = refl;
  name_first = refl;
  quote_first = refl;
  blank_first = refl;
  line_first = refl;
  closed_at = 4;
  closed = refl;
}

abbrev ready : Parser
ready = record fresh { boundary = dashes }

write-files_example :
    let (p', effects, done) = write (λ n. bytes "tmp") (body dashes hello_part) ready in
    (done ≡ true)
    × (function_files.content (act_all function_files effects (λ name. none)) (bytes "hello.txt")
        ≡ (if same (bytes "hello.txt") (bytes "hello.txt")
            then some (bytes "hello")
            else if same (bytes "tmp") (bytes "hello.txt")
            then none
            else none))
unfolding function_files c_str find_key
write-files_example =
    write-files function_files (λ n. bytes "tmp") hello_part ready (λ name. none)
      (bytes "hello.txt") hello_part-IsUpload refl refl refl refl refl refl refl refl

semicolon-Ending : Ending (bytes "7f3a") (bytes "; charset=utf-8")
unfolding find starts_with
semicolon-Ending = at_semicolon (bytes " charset=utf-8") refl refl refl

extract_boundary-Ending_example :
    extract_boundary (bytes "multipart/form-data; boundary=7f3a; charset=utf-8") fresh
    ≡ (record fresh { boundary = bytes "7f3a" }, true)
unfolding find starts_with
extract_boundary-Ending_example =
    extract_boundary-Ending fresh (bytes "multipart/form-data; ") (bytes "7f3a")
      (bytes "; charset=utf-8") refl refl refl semicolon-Ending
