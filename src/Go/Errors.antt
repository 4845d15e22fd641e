-- ===== src/Go/Errors.antt =====
-- Go's `error` values and the package github.com/pkg/errors. A message keeps its format string and
-- its arguments; `fmt` does not format it here. The program tells errors apart by their kind alone.
use kube_bundler.Prelude.{String, Bool, true, false, Option, none, some, List}
use kube_bundler.Prelude.{ℕ}
use kube_bundler.Prelude.Int.{ℤ}

pub data Arg : Type 0 where
  text : String → Arg
  int : ℤ → Arg
  count : ℕ → Arg

pub data Kind : Type 0 where
  plain : Kind  -- errors.New, fmt.Errorf, and errors of libraries that nothing looks into
  bundle_not_found : Kind  -- the variable ErrNotFound of managers/source.go
  not_implemented : Kind  -- the variable ErrNotImplemented of managers/source.go
  api_not_found : Kind  -- what the Kubernetes client's IgnoreNotFound recognises
  file_not_exist : Kind  -- what os.IsNotExist recognises
  file_exist : Kind  -- what os.IsExist recognises

pub data Error : Type 0 where
  leaf : Kind → String → List Arg → Error
  wrapped : String → List Arg → Error → Error

-- `errors.New` and `fmt.Errorf`
abbrev pub errorf : String → List Arg → Error
errorf = leaf Kind.plain

-- `errors.Wrapf(err, format, args)`, which is nil for a nil error.
abbrev pub wrapf : Option Error → String → List Arg → Option Error
wrapf none format args = none
wrapf (some e) format args = some (wrapped format args e)

-- `err == ErrNotFound` compares with the variable itself: a wrapped error is another value.
unfoldable pub is_err_not_found : Error → Bool
is_err_not_found (leaf Kind.bundle_not_found _ _) = true
is_err_not_found _ = false

-- `client.IgnoreNotFound(err) == nil` looks through wrappers.
unfoldable pub is_api_not_found : Error → Bool
is_api_not_found (leaf Kind.api_not_found _ _) = true
is_api_not_found (leaf _ _ _) = false
is_api_not_found (wrapped _ _ e) = is_api_not_found e

-- `os.IsNotExist(err)` does not.
unfoldable pub is_file_not_exist : Error → Bool
is_file_not_exist (leaf Kind.file_not_exist _ _) = true
is_file_not_exist _ = false

-- `os.IsExist(err)` does not either.
unfoldable pub is_file_exist : Error → Bool
is_file_exist (leaf Kind.file_exist _ _) = true
is_file_exist _ = false

-- `errors.Is(err, fs.ErrNotExist)` does.
unfoldable pub wraps_not_exist : Error → Bool
wraps_not_exist (leaf Kind.file_not_exist _ _) = true
wraps_not_exist (leaf _ _ _) = false
wraps_not_exist (wrapped _ _ e) = wraps_not_exist e
