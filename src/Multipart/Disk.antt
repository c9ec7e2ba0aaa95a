-- ===== src/Multipart/Disk.antt =====
-- The file system as the parser uses it: states, the content under a name, and the effects. The laws
-- are what `write` with O_APPEND and `rename` do where they succeed; a name may be empty or stand for a
-- directory that is not there, and the disk may be full.
use h2_server.Prelude.{
  Bool, true, Bytes, same, Option, none, some, List, [], ◌∷◌, ◌++◌, if◌then◌else◌, ◌≡◌,
}
use h2_server.FileCache.{c_str}
use h2_server.Multipart.{Effect, append_file, rename}

abbrev pub old_content : Option Bytes → Bytes
old_content none = []
old_content (some content) = content

pub record FileSystem (S : Type 0) : Type 0 where
  pub content : S → Bytes → Option Bytes
  pub act : Effect → S → S
  -- Whether `open` and `write`, or `rename`, succeed.
  pub can_append : S → Bytes → Bytes → Bool
  pub can_rename : S → Bytes → Bytes → Bool
  -- Appending creates a file that is not there.
  pub append_law :
      (s : S) (name added other : Bytes)
      → can_append s name added ≡ true
      → content (act (append_file name added) s) other ≡ (
          if same (c_str name) other
          then some (old_content (content s (c_str name)) ++ added)
          else content s other)
  -- Moving replaces what was under the new name.
  pub rename_law :
      (s : S) (old new bytes other : Bytes)
      → can_rename s old new ≡ true
      → content s (c_str old) ≡ some bytes
      → content (act (rename old new) s) other ≡ (
          if same (c_str new) other
          then some bytes
          else if same (c_str old) other
          then none
          else content s other)

module _ {S : Type 0} (files : FileSystem S) where
  abbrev pub act_all : List Effect → S → S
  act_all [] s = s
  act_all (effect ∷ effects) s = act_all effects (files.act effect s)
