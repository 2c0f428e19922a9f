-- ===== src/Migrations/Files.antt =====
-- loadMigrations of internal/store/migrations.go: the forward migrations of a directory, in order.
use complicatedauth_backend.Prelude.{
  ℕ, zero, suc, Bool, true, false, not, ◌&&◌, ◌||◌, List, [], ◌∷◌, Option, none, some, ◌==◌,
  if◌then◌else◌, take,
}
use complicatedauth_backend.Prelude.Text.{is_lower, is_digit}
use complicatedauth_backend.Prelude.Bytes.{bytes_eq, bytes_eq_iff, bytes_lt}
use complicatedauth_backend.Table.{Keyed}
use complicatedauth_backend.Db.{Result, ok, err}
use complicatedauth_backend.Cleanup.{is_some}

-- migrationFile
pub record File : Type 0 where
  pub name : List ℕ
  pub contents : List ℕ
  pub checksum : List ℕ

instance abbrev pub file_keyed : Keyed File
file_keyed = record { Key = List ℕ; key = λ f. f.name; same = bytes_eq; same_iff = bytes_eq_iff }

-- An entry that os.ReadDir lists, with what os.ReadFile gives for it: `none` is an error.
pub record DirEntry : Type 0 where
  pub name : List ℕ
  pub is_dir : Bool
  pub contents : Option (List ℕ)

pub data LoadError : Type 0 where
  no_directory : LoadError
  bad_name unreadable duplicate : List ℕ → LoadError

-- .up.sql
abbrev suffix : List ℕ
suffix = b'.' ∷ b'u' ∷ b'p' ∷ b'.' ∷ b's' ∷ b'q' ∷ b'l' ∷ []

abbrev prepend : ℕ → Option (List ℕ) → Option (List ℕ)
prepend c none = none
prepend c (some cs) = some (c ∷ cs)

-- What stands before a final .up.sql, if the name ends so: forwardSQLPattern.
unfoldable pub stem : List ℕ → Option (List ℕ)
stem [] = none
stem (c ∷ cs) = let rest = stem cs in if bytes_eq (c ∷ cs) suffix then some [] else prepend c rest

-- [a-z0-9]+(?:_[a-z0-9]+)*, of which `started` says whether a word has begun
unfoldable pub words : Bool → List ℕ → Bool
words started [] = started
words started (c ∷ cs) =
    if c == b'_' then started && words false cs else (is_lower c || is_digit c) && words true cs

-- `n` digits, an underscore and words
unfoldable pub numbered : ℕ → List ℕ → Bool
unfolding words
numbered n [] = false
numbered zero (c ∷ cs) = c == b'_' && words false cs
numbered (suc n) (c ∷ cs) = is_digit c && numbered n cs

-- migrationNamePattern
unfoldable pub is_named : List ℕ → Bool
unfolding stem numbered
is_named name = elim (stem name) [ none ↦ false | some s ↦ numbered 6 s ]

abbrev add_file : File → Result LoadError (List File) → Result LoadError (List File)
add_file file (err e) = err e
add_file file (ok files) = ok (file ∷ files)

-- The loop over the entries. The hex digits of the SHA-256 digest are a parameter.
unfoldable pub read_entries : (List ℕ → List ℕ) → List DirEntry → Result LoadError (List File)
unfolding stem is_named
read_entries digest [] = ok []
read_entries digest (entry ∷ entries) =
    let rest = read_entries digest entries in
    if entry.is_dir || not (is_some (stem entry.name))
    then rest
    else if not (is_named entry.name)
    then err (bad_name entry.name)
    else elim entry.contents [
      | none ↦ err (unreadable entry.name)
      | some contents ↦
          add_file (record { name = entry.name; contents = contents; checksum = digest contents })
            rest
    ]

-- sort.Slice(migrations, ...)
unfoldable pub insert_file : File → List File → List File
insert_file file [] = file ∷ []
insert_file file (x ∷ xs) =
    if bytes_lt x.name file.name then x ∷ insert_file file xs else file ∷ x ∷ xs

unfoldable pub sort_files : List File → List File
unfolding insert_file
sort_files [] = []
sort_files (file ∷ files) = insert_file file (sort_files files)

-- name[:6]
abbrev pub version : File → List ℕ
version file = take 6 file.name

-- The loop over neighbours.
unfoldable pub find_duplicate : List File → Option LoadError
find_duplicate [] = none
find_duplicate (x ∷ []) = none
find_duplicate (x ∷ y ∷ files) =
    let rest = find_duplicate (y ∷ files) in
    if bytes_eq (version x) (version y) then some (duplicate (version y)) else rest

-- loadMigrations; `none` is an error of os.ReadDir.
unfoldable pub load_migrations :
    (List ℕ → List ℕ) → Option (List DirEntry) → Result LoadError (List File)
unfolding read_entries sort_files find_duplicate
load_migrations digest none = err no_directory
load_migrations digest (some entries) = elim (read_entries digest entries) [
  | err e ↦ err e
  | ok files ↦ elim (find_duplicate (sort_files files)) [
    | some e ↦ err e
    | none ↦ ok (sort_files files)
  ]
]
