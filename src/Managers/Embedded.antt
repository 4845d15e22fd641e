-- ===== src/Managers/Embedded.antt =====
-- The files that are built into the program, which managers/bootstrap.go and managers/registry.go
-- apply to the cluster, and the order in which a directory of them is gone through.
use kube_bundler.Prelude.{String, Bool, true, false, List, [], ◌∷◌, ◌≡◌}
use kube_bundler.Prelude.{◌≡◌, inl, inr, arith, Bool-cases}
use kube_bundler.Go.Each.{Each}
use kube_bundler.Go.Io.{Result, ok, Io, pure, bind-ok, ◌>>◌}

-- `fs.DirEntry`
pub record DirEntry : Type 0 where
  pub name : String
  pub is_dir : Bool

-- embed, text/template, the decoding of YAML, path/filepath and strings. `Args` is what a template is
-- executed with. The two texts are embedded themselves.
pub record Embedded (Args U : Type 0) : Type 0 where
  pub read_dir : String → Result (List DirEntry)
  pub read_file : String → Result String
  pub parse_templates : String → Result (Unit {0})
  pub execute : String → Args → Result String
  pub yaml : String → Result U
  pub join : List String → String
  pub replace_all : String → String → String → String
  pub replacer : List String → String → String  -- of `NewReplacer`
  pub proxy_config : String
  pub proxy_daemonset : String

module _ {W : Type 0} (apply : String → Io W (Unit {0})) where
  -- `for _, entry := range entries { if entry.IsDir() { continue } … }`
  unfoldable pub each_file : List DirEntry → Io W (Unit {0})
  each_file [] = pure tt
  each_file (e ∷ es) = elim e.is_dir [
    | true ↦ each_file es
    | false ↦ (apply e.name >> each_file es)
  ]

-- The names of the entries that are files.
abbrev pub file_names : List DirEntry → List String
file_names [] = []
file_names (e ∷ es) = elim e.is_dir [ true ↦ file_names es | false ↦ e.name ∷ file_names es ]

module _ {W : Type 0} (apply : String → Io W (Unit {0})) where
  -- A loop that ends with no error applied the files, and nothing else, in the order of the directory.
  pub each_file-Each :
      (es : List DirEntry) (w w' : W)
      → each_file apply es w ≡ (ok tt, w')
      → Each (λ name u u'. apply name u ≡ (ok tt, u')) (file_names es) w w'
  unfolding each_file
  each_file-Each [] w w' h = ground (arith, h)
  each_file-Each (e ∷ es) w w' h = elim (Bool-cases e.is_dir) [
    | inl p ↦ rw p (each_file-Each es w w' (rw (p, each_file) at h))
    | inr p ↦
        let (a, u, first, rest) =
          bind-ok (apply e.name) (λ _. each_file apply es) w w' tt (rw (p, each_file) at h) in
        rw p (u, first, each_file-Each es u w' rest)
  ]
