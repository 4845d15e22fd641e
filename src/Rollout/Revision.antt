-- ===== src/Rollout/Revision.antt =====
-- helpers/deploymentutil/deployment.go, with `strconv.ParseInt(s, 10, 64)`.
use Prim.Native.Char.{code}
use kube_bundler.Prelude.{ℕ, ◌+◌, ◌-◌, ◌*◌, String, ◌&&◌, Option, none, some, List, [], ◌∷◌}
use kube_bundler.Prelude.{◌==◌, leb, eqb, if◌then◌else◌}
use kube_bundler.Prelude.Dict.{Dict, lookup}
use kube_bundler.Prelude.Int.{ℤ, sub_ℕ}
use kube_bundler.Go.Errors.{errorf}
use kube_bundler.Go.Io.{Result, ok, err}
use kube_bundler.Cluster.Objects.{Condition}

abbrev pub revision_annotation : String
revision_annotation = "deployment.kubernetes.io/revision"

abbrev pub timed_out_reason : String
timed_out_reason = "ProgressDeadlineExceeded"

-- The digits of a number with none missing, read from the left.
parse_digits : ℕ → String → Option ℕ
parse_digits n String.[] = some n
parse_digits n (String.◌∷◌ c s) =
    let rest = parse_digits (n * 10 + (code c - 48)) s in
    if leb 48 (code c) && leb (code c) 57 then rest else none

-- At least one digit, and nothing else.
parse_unsigned : String → Option ℕ
unfolding parse_digits
parse_unsigned String.[] = none
parse_unsigned (String.◌∷◌ c s) = parse_digits 0 (String.◌∷◌ c s)

in_range : ℕ → (ℕ → ℤ) → Option ℕ → Result ℤ
in_range limit sign none = err (errorf "invalid syntax" [])
in_range limit sign (some n) =
    if leb n limit then ok (sign n) else err (errorf "value out of range" [])

unfoldable pub parse_int : String → Result ℤ
unfolding parse_unsigned in_range
parse_int String.[] = err (errorf "invalid syntax" [])
parse_int (String.◌∷◌ c s) =
    if eqb (code c) b'-'
    then in_range 9223372036854775808 (sub_ℕ 0) (parse_unsigned s)
    else if eqb (code c) b'+'
    then in_range 9223372036854775807 ℤ.pos (parse_unsigned s)
    else in_range 9223372036854775807 ℤ.pos (parse_unsigned (String.◌∷◌ c s))

unfoldable pub revision : Dict String → Result ℤ
unfolding parse_int
revision annotations = elim (lookup revision_annotation annotations) [
  | none ↦ ok (ℤ.pos 0)
  | some v ↦ parse_int v
]

-- The first condition of the type.
unfoldable pub get_deployment_condition : List Condition → String → Option Condition
get_deployment_condition [] type = none
get_deployment_condition (c ∷ cs) type =
    if c.type == type then some c else get_deployment_condition cs type
