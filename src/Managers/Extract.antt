-- ===== src/Managers/Extract.antt =====
-- managers/registry.go: an archive of images extracted to a directory of the host.
pub mod Laws
pub mod Total
use kube_bundler.Prelude.{
  ℕ, zero, suc, String, Bool, true, false, Option, none, some, List, [], ◌∷◌, eqb, ◌&&◌,
  if◌then◌else◌,
}
use kube_bundler.Go.Errors.{Error, text, wrapped, is_file_exist, is_file_not_exist}
use kube_bundler.Go.Io.{
  Io, Result, ok, err, panic, pure, fail, crash, annotate, attempt, ◌>>=◌, ◌>>◌,
}
use kube_bundler.Go.Run.{Run}

pub data EntryType : Type 0 where
  directory regular other : EntryType

-- `tar.Header`
pub record Header : Type 0 where
  pub name : String
  pub type : EntryType
  pub size : ℕ
  pub mod_time : ℕ

-- `os.FileInfo`
pub record FileInfo : Type 0 where
  pub size : ℕ
  pub mod_time : ℕ

-- archive/tar, os, io and path/filepath. An open file is known by a number; a nil file is none.
pub record TarTools (W : Type 0) : Type 0 where
  pub next : ℕ → Io W (Option Header)  -- none for `io.EOF`
  pub join : List String → String
  pub mkdir_all : String → Io W (Unit {0})
  pub stat : String → Io W FileInfo
  pub open_new : String → Io W ℕ  -- with O_WRONLY, O_CREATE, O_TRUNC and O_EXCL
  pub copy : Option ℕ → ℕ → Io W (Unit {0})  -- to a file, from the entry of an archive
  pub close : Option ℕ → Io W (Unit {0})

module _ {W : Type 0} (t : TarTools W) (tar : ℕ) where
  -- What is known of the file before it is opened.
  found_info : String → Result FileInfo → Io W (Option FileInfo)
  found_info path (ok info) = pure (some info)
  found_info path (err e) =
      if is_file_not_exist e
      then pure none
      else fail (wrapped "couldn't stat existing file '%s'" (text path ∷ []) e)
  found_info path (panic why) = crash why

  unfoldable pub write_file : Header → Option ℕ → Io W (Unit {0})
  write_file h out = do
    annotate "couldn't copy file '%s' to destination" (text h.name ∷ []) (t.copy out tar)
    annotate "couldn't close file '%s'" (text h.name ∷ []) (t.close out)

  -- The file exists already: `fi.Size()` panics on nil.
  keep_or_write : Header → Option FileInfo → Io W (Unit {0})
  unfolding write_file
  keep_or_write h none = crash "runtime error: invalid memory address or nil pointer dereference"
  keep_or_write h (some info) =
      if eqb info.size h.size && eqb info.mod_time h.mod_time
      then pure tt
      else if eqb info.size h.size
      then pure tt
      else write_file h none

  -- What follows the attempt to create the file.
  opened : Header → String → Option FileInfo → Result ℕ → Io W (Unit {0})
  unfolding write_file keep_or_write
  opened h path info (ok f) = write_file h (some f)
  opened h path info (err e) =
      if is_file_exist e
      then keep_or_write h info
      else fail (wrapped "couldn't create file '%s'" (text path ∷ []) e)
  opened h path info (panic why) = crash why

  unfoldable pub extract_file : Header → String → Io W (Unit {0})
  unfolding found_info opened
  extract_file h path = do
    s ← attempt (t.stat path)
    info ← found_info path s
    o ← attempt (t.open_new path)
    opened h path info o

  -- The body of the loop, below the reading of the header. An unknown type is logged.
  unfoldable pub extract_entry : String → Header → Io W (Unit {0})
  unfolding extract_file
  extract_entry dir h = elim h.type [
    | directory ↦
        let path = t.join (dir ∷ h.name ∷ []) in
        annotate "couldn't create dir '%s'" (text path ∷ []) (t.mkdir_all path)
    | regular ↦ extract_file h (t.join (dir ∷ h.name ∷ []))
    | other ↦ pure tt
  ]

  -- `extractTarToDir`, which reads the archive to its end: none when the fuel runs out.
  unfoldable pub extract : ℕ → String → Run W (Unit {0})
  unfolding extract_entry
  extract zero dir w = none
  extract (suc fuel) dir w =
      let (r, u) = t.next tar w in
      elim r [
        | panic why ↦ some (panic why, u)
        | err e ↦ some (err (wrapped "couldn't extract tar" [] e), u)
        | ok header ↦ elim header [
          | none ↦ some (ok tt, u)
          | some h ↦
              let (s, v) = extract_entry dir h u in
              elim s [
                | ok _ ↦ extract fuel dir v
                | err e ↦ some (err e, v)
                | panic why ↦ some (panic why, v)
              ]
        ]
      ]
