-- ===== src/Managers/Bootstrap/Laws.antt =====
-- What is in the cluster once the bootstrap has ended.
use kube_bundler.Prelude.{◌≡◌, ◌∙◌, [], ◌∷◌, String, Bool, true, false, List, arith, sym}
use mathlib.Core.Path.{subst}
use kube_bundler.Go.Each.{Each, Each-map}
use kube_bundler.Go.Errors.{text}
use kube_bundler.Go.Io.{Io, ok, lift, bind-ok, annotate-ok, annotate-lift-ok, annotate, ◌>>=◌}
use kube_bundler.Managers.Client.{KbClient, Libraries}
use kube_bundler.Managers.Embedded.{Embedded, DirEntry, each_file, file_names, each_file-Each}
use kube_bundler.Managers.Resource
use kube_bundler.Managers.Bootstrap.{
  crd_dir, binding_dir, flavor_dir, GcrInfo, apply_file, deploy_crds, deploy_bindings,
  deploy_flavors, unless, deploy_all,
}

module _ {W Key U Args : Type 0} (c : KbClient W Key U) (l : Libraries W U)
    (b : Embedded Args U) where
  -- The object in the file was applied.
  pub record FileApplied (dir name : String) (w w' : W) : Type 0 where
    pub content : String
    pub object : U
    pub read : b.read_file (b.join (dir ∷ name ∷ [])) ≡ ok content
    pub decoded : b.yaml content ≡ ok object
    pub applied : c.unstructured.apply object w ≡ (ok tt, w')

  -- The files of the directory were applied one after another.
  pub record DirApplied (dir : String) (w w' : W) : Type 0 where
    pub entries : List DirEntry
    pub listed : b.read_dir dir ≡ ok entries
    pub each : Each (FileApplied dir) (file_names entries) w w'

  apply_file-FileApplied :
      (unreadable dir name : String) (w w' : W)
      → apply_file c l b unreadable dir name w ≡ (ok tt, w')
      → FileApplied dir name w w'
  unfolding apply_file Resource.apply
  apply_file-FileApplied unreadable dir name w w' h =
      let (content, w1, h1, r1) =
        bind-ok
          (annotate unreadable (text name ∷ []) (lift (b.read_file (b.join (dir ∷ name ∷ []))))) _ w
          w' tt h in
      let (u, w2, h2, r2) =
        bind-ok
          (annotate "couldn't unmarshal yaml in file '%s'" (text name ∷ []) (lift (b.yaml content)))
          _ w1 w' tt r1 in
      let (read, same1) =
        annotate-lift-ok _ _ (b.read_file (b.join (dir ∷ name ∷ []))) w w1 content h1 in
      let (decoded, same2) = annotate-lift-ok _ _ (b.yaml content) w1 w2 u h2 in
      let applied : c.unstructured.apply u w2 ≡ (ok tt, w') =
        annotate-ok _ _ (c.unstructured.apply u) w2 w' tt
          (annotate-ok _ _ (Resource.apply c.unstructured l.name_of (λ u. "") u) w2 w' tt r2) in
      record {
        content = content;
        object = u;
        read = read;
        decoded = decoded;
        applied = subst (λ v. c.unstructured.apply u v ≡ (ok tt, w')) (sym (same1 ∙ same2)) applied;
      }

  -- What the three loops have in common.
  dir-DirApplied :
      (unreadable message dir : String) (w w' : W)
      → (do
        entries ← annotate message [] (lift (b.read_dir dir))
        each_file (apply_file c l b unreadable dir) entries)
          w
        ≡ (ok tt, w')
      → DirApplied dir w w'
  dir-DirApplied unreadable message dir w w' h =
      let (entries, w1, h1, r1) =
        bind-ok (annotate message [] (lift (b.read_dir dir))) _ w w' tt h in
      let (listed, same) = annotate-lift-ok _ _ (b.read_dir dir) w w1 entries h1 in
      record {
        entries = entries;
        listed = listed;
        each = Each-map (apply_file-FileApplied unreadable dir) (file_names entries) w w' (
            subst
              (λ v.
                Each (λ name u u'. apply_file c l b unreadable dir name u ≡ (ok tt, u'))
                  (file_names entries) v w')
              (sym same) (each_file-Each (apply_file c l b unreadable dir) entries w1 w' r1));
      }

  -- A step that is skipped leaves the world as it is.
  abbrev pub Unless : Bool → (W → W → Type 0) → W → W → Type 0
  Unless true R w w' = w ≡ w'
  Unless false R w w' = R w w'

  unless-Unless :
      (skip : Bool) (message : String) (m : Io W (Unit {0})) (R : W → W → Type 0) (w w' : W)
      → (m w ≡ (ok tt, w') → R w w')
      → unless c l b skip message m w ≡ (ok tt, w')
      → Unless skip R w w'
  unless-Unless true message m R w w' f h = ground (arith, h)
  unless-Unless false message m R w w' f h = f (annotate-ok message [] m w w' tt h)

  -- If the bootstrap ends with no error, then the files of the definitions, of the bindings and of the
  -- flavors were applied one after another, each in the order of its directory, and the proxy
  -- was deployed after them, but for the steps that the caller skips.
  pub deploy_all-Bootstrapped :
      (skip_crds skip_bindings skip_flavors skip_airgap : Bool)
      (deploy_proxy : String → GcrInfo → Io W (Unit {0})) (provider : String) (gcr_info : GcrInfo)
      (w w' : W)
      → deploy_all c l b skip_crds skip_bindings skip_flavors skip_airgap deploy_proxy provider
          gcr_info w
        ≡ (ok tt, w')
      → (w1 w2 w3 : W) × Unless skip_crds (DirApplied crd_dir) w w1
        × Unless skip_bindings (DirApplied binding_dir) w1 w2
        × Unless skip_flavors (DirApplied flavor_dir) w2 w3
        × Unless skip_airgap (λ u u'. deploy_proxy provider gcr_info u ≡ (ok tt, u')) w3 w'
  unfolding deploy_all deploy_crds deploy_bindings deploy_flavors
  deploy_all-Bootstrapped s1 s2 s3 s4 deploy_proxy provider gcr_info w w' h =
      let (a1, w1, h1, r1) =
        bind-ok (unless c l b s1 "couldn't deploy CRDs" (deploy_crds c l b)) _ w w' tt h in
      let (a2, w2, h2, r2) =
        bind-ok (unless c l b s2 "couldn't deploy bindings" (deploy_bindings c l b)) _ w1 w' tt
          r1 in
      let (a3, w3, h3, r3) =
        bind-ok (unless c l b s3 "couldn't deploy flavors" (deploy_flavors c l b)) _ w2 w' tt r2 in
      (
        w1,
        w2,
        w3,
        unless-Unless s1 _ (deploy_crds c l b) (DirApplied crd_dir) w w1
            (dir-DirApplied _ _ crd_dir w w1) h1,
        unless-Unless s2 _ (deploy_bindings c l b) (DirApplied binding_dir) w1 w2
            (dir-DirApplied _ _ binding_dir w1 w2) h2,
        unless-Unless s3 _ (deploy_flavors c l b) (DirApplied flavor_dir) w2 w3
            (dir-DirApplied _ _ flavor_dir w2 w3) h3,
        unless-Unless s4 _ (deploy_proxy provider gcr_info) _ w3 w' (λ e. e) r3,
      )
