-- ===== src/Multipart/Moves.antt =====
-- A new file on a file system, appended to and moved.
use h2_server.Prelude.{
  ◌≡◌, refl, ap, ◌∙◌, subst, Bytes, bytes, Bool, true, false, Option, none, some, ◌++◌,
  if◌then◌else◌, same, same_refl,
}
use h2_server.FileCache.{c_str}
use h2_server.Multipart.{append_file, rename}
use h2_server.Multipart.Disk.{FileSystem, old_content}

-- A name that the kernel reads to its end.
abbrev pub IsPlain : Bytes → Type 0
IsPlain name = c_str name ≡ name

module _ {S : Type 0} (files : FileSystem S) where
  append_plain :
      (s : S) (name added other : Bytes)
      → files.can_append s name added ≡ true
      → IsPlain name
      → files.content s name ≡ none
      → files.content (files.act (append_file name added) s) other
        ≡ (if same name other then some added else files.content s other)
  append_plain s name added other can plain unused =
      subst
        (λ (n : Bytes). files.content (files.act (append_file name added) s) other ≡ (
          if same n other
          then some (old_content (files.content s n) ++ added)
          else files.content s other))
        plain (files.append_law s name added other can)
      ∙ ap
          (λ (o : Option Bytes).
            if same name other then some (old_content o ++ added) else files.content s other)
          unused

  rename_plain :
      (s : S) (old new bytes other : Bytes)
      → files.can_rename s old new ≡ true
      → IsPlain old
      → IsPlain new
      → files.content s old ≡ some bytes
      → files.content (files.act (rename old new) s) other ≡ (
          if same new other
          then some bytes
          else if same old other
          then none
          else files.content s other)
  rename_plain s old new bytes other can plain_old plain_new there =
      subst
        (λ (n : Bytes). files.content (files.act (rename old new) s) other ≡ (
          if same n other
          then some bytes
          else if same old other
          then none
          else files.content s other))
        plain_new
        (subst
          (λ (n : Bytes). files.content (files.act (rename old new) s) other ≡ (
            if same (c_str new) other
            then some bytes
            else if same n other
            then none
            else files.content s other))
          plain_old
          (files.rename_law s old new bytes other can (ap (files.content s) plain_old ∙ there)))

  -- A new file, appended to and moved.
  pub move_new :
      (s : S) (tmp name added other : Bytes)
      → files.can_append s tmp added ≡ true
      → files.can_rename (files.act (append_file tmp added) s) tmp name ≡ true
      → IsPlain tmp
      → IsPlain name
      → files.content s tmp ≡ none
      → files.content (files.act (rename tmp name) (files.act (append_file tmp added) s)) other ≡ (
          if same name other
          then some added
          else if same tmp other
          then none
          else files.content s other)
  move_new s tmp name added other appends renames plain_tmp plain unused =
      let there : files.content (files.act (append_file tmp added) s) tmp ≡ some added =
        append_plain s tmp added tmp appends plain_tmp unused ∙ rw (same_refl tmp) refl in
      rename_plain (files.act (append_file tmp added) s) tmp name added other renames plain_tmp
        plain there
      ∙ ap
          (λ (o : Option Bytes).
            if same name other then some added else if same tmp other then none else o)
          (append_plain s tmp added other appends plain_tmp unused)
      ∙ if_twice (same name other) (same tmp other)
    where
      if_twice :
          (a b : Bool)
          → (if a
              then some added
              else if b
              then none
              else if b
              then some added
              else files.content s other)
            ≡ (if a then some added else if b then none else files.content s other)
      if_twice true b = refl
      if_twice false true = refl
      if_twice false false = refl
