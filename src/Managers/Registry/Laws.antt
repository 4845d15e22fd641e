-- ===== src/Managers/Registry/Laws.antt =====
-- What is known of a registry whose deploy ended with no error.
use kube_bundler.Go.Io.{annotate-lift-ok}
use kube_bundler.Prelude.{
  ◌≡◌, refl, sym, ap, ◌∙◌, ◌≤◌, String, ◌<>◌, List, [], ◌∷◌, All, arith, inl, inr, Bool-cases, ◌==◌,
  eqb, length,
}
use mathlib.Core.Path.{subst}
use kube_bundler.Go.Each.{Each, Each-map}
use kube_bundler.Go.Errors.{text}
use kube_bundler.Go.Io.{Io, ok, lift, bind-ok, annotate-ok, annotate}
use kube_bundler.Api.{Flavor}
use kube_bundler.Api.Registry.{Registry, sanitized_registry_name}
use kube_bundler.Cluster.Objects.{Pod}
use kube_bundler.Managers.Client.{KbClient, Libraries}
use kube_bundler.Managers.Embedded.{Embedded, DirEntry, each_file, file_names, each_file-Each}
use kube_bundler.Managers.Resource
use kube_bundler.Managers.Registry.{
  RegistryRef, RegistryArgs, PodTools, count_running, registry_args, get_registry, get_flavor,
  list_pods, judge_pods, check_running, wait_for_running, apply_unstructured, load_yaml,
  apply_template, deploy, templates_dir,
}

abbrev pub IsRunning : Pod → Type 0
IsRunning p = p.phase ≡ "Running"

count_running-le-length : (ps : List Pod) → count_running ps ≤ length ps
unfolding count_running
count_running-le-length [] = omega arith
count_running-le-length (p ∷ ps) = ground (arith, count_running-le-length ps)

count_running-all : (ps : List Pod) → count_running ps ≡ length ps → All IsRunning ps
unfolding count_running
count_running-all [] h = tt
count_running-all (p ∷ ps) h = elim (Bool-cases (p.phase == "Running")) [
  | inl q ↦ (ground (arith, q), count_running-all ps (ground (arith, rw q at h)))
  | inr q ↦ absurd (ground (arith, rw q at h, count_running-le-length ps))
]

module _ {W Key U : Type 0} (c : KbClient W Key U) (l : Libraries W U) (b : Embedded RegistryArgs U)
    (t : PodTools W) where
  -- `retry.Do` ends with no error if the last call of the function did.
  abbrev pub RetrySucceeds : Type 0
  RetrySucceeds =
      (m : Io W (Unit {0})) (w w' : W) → t.retry m w ≡ (ok tt, w') → (u : W) × (m u ≡ (ok tt, w'))

  -- The resource of the template was applied.
  pub record TemplateApplied (args : RegistryArgs) (name : String) (w w' : W) : Type 0 where
    pub content : String
    pub object : U
    pub executed : b.execute name args ≡ ok content
    pub decoded : b.yaml content ≡ ok object
    pub applied : c.unstructured.apply object w ≡ (ok tt, w')

  -- The registry was found, its templates were applied in order, and then the pods of its
  -- deployment, of which there are some, were all running.
  pub record RegistryDeployed (ref : RegistryRef) (w w' : W) : Type 0 where
    pub registry : Registry
    pub flavor : Flavor
    pub entries : List DirEntry
    pub pod : Pod
    pub pods : List Pod
    pub found : W
    pub chosen : W
    pub applied : W
    pub looked : W
    pub is_found : c.registries.get ref.name ref.namespace w ≡ (ok registry, found)
    pub is_chosen : get_flavor c registry found ≡ (ok flavor, chosen)
    pub listed : b.read_dir templates_dir ≡ ok entries
    pub templates :
        Each (TemplateApplied (registry_args registry flavor)) (file_names entries) chosen applied
    pub seen :
        t.pods_matching
          (("name", "registry-" <> sanitized_registry_name registry) ∷ [])
          "default"
          looked
        ≡ (ok (pod ∷ pods), w')
    pub running : All IsRunning (pod ∷ pods)

  judge_pods-running :
      (ps : List Pod) (w w' : W)
      → judge_pods c t ps w ≡ (ok tt, w')
      → (p : Pod) × (qs : List Pod) × (ps ≡ p ∷ qs) × All IsRunning ps × (w ≡ w')
  unfolding judge_pods
  judge_pods-running [] w w' h = ground (arith, h)
  judge_pods-running (p ∷ ps) w w' h =
      elim (Bool-cases (eqb (count_running (p ∷ ps)) (length (p ∷ ps)))) [
        | inl q ↦
            (p, ps, refl, count_running-all (p ∷ ps) (ground (arith, q)), ground (arith, rw q at h))
        | inr q ↦ ground (arith, rw q at h)
      ]

  check_running-running :
      (name : String) (w w' : W)
      → check_running c t name w ≡ (ok tt, w')
      → (p : Pod) × (qs : List Pod) × (t.pods_matching (("name", name) ∷ []) "default" w
          ≡ (ok (p ∷ qs), w'))
        × All IsRunning (p ∷ qs)
  unfolding check_running list_pods
  check_running-running name w w' h =
      let (ps, u, listed, judged) = bind-ok (list_pods c t name "default") _ w w' tt h in
      let matched = annotate-ok _ _ (t.pods_matching (("name", name) ∷ []) "default") w u ps (
        annotate-ok _ _ (annotate _ _ (t.pods_matching (("name", name) ∷ []) "default")) w u ps
          listed) in
      let (p, qs, same, all, end) = judge_pods-running ps u w' judged in
      (
        p,
        qs,
        subst (λ v. t.pods_matching (("name", name) ∷ []) "default" w ≡ (ok (p ∷ qs), v)) end
            (matched ∙ ap (λ x. (ok x, u)) same),
        subst (All IsRunning) same all,
      )

  apply_template-TemplateApplied :
      (args : RegistryArgs) (name : String) (w w' : W)
      → apply_template c l b args name w ≡ (ok tt, w')
      → TemplateApplied args name w w'
  unfolding apply_template load_yaml apply_unstructured Resource.apply
  apply_template-TemplateApplied args name w w' h =
      let (content, w1, h1, r1) =
        bind-ok
          (annotate "couldn't execute template '%s'" (text name ∷ []) (lift (b.execute name args)))
          _ w w' tt h in
      let (u, w2, h2, r2) =
        bind-ok (annotate "couldn't load resource '%s'" (text name ∷ []) (load_yaml c l b content))
          _ w1 w' tt r1 in
      let e1 = annotate-ok _ _ (lift (b.execute name args)) w w1 content h1 in
      let e2 =
        annotate-ok _ _ (lift (b.yaml content)) w1 w2 u
          (annotate-ok _ _ (load_yaml c l b content) w1 w2 u h2) in
      let same : w2 ≡ w = ground (arith, e1, e2) in
      let done = annotate-ok _ _ (c.unstructured.apply u) w2 w' tt (
        annotate-ok _ _ (Resource.apply c.unstructured l.name_of (λ u. "") u) w2 w' tt
          (annotate-ok _ _ (apply_unstructured c l b u) w2 w' tt r2)) in
      record {
        content = content;
        object = u;
        executed = ground (arith, e1);
        decoded = ground (arith, e2);
        applied = subst (λ v. c.unstructured.apply u v ≡ (ok tt, w')) same done;
      }

  -- If the deploy of a registry ends with no error, and the library that tries a function again ends
  -- so only after a call that did, then the registry was found, its templates were applied in
  -- order, and its pods, of which there was at least one, were all running when they were
  -- listed last.
  pub deploy-RegistryDeployed :
      RetrySucceeds
      → (ref : RegistryRef) (w w' : W) → deploy c l b t ref w ≡ (ok tt, w')
      → RegistryDeployed ref w w'
  unfolding deploy get_registry Resource.get registry_args wait_for_running
  deploy-RegistryDeployed retries ref w w' h =
      let (registry, w1, h1, r1) = bind-ok (get_registry c ref) _ w w' tt h in
      let (flavor, w2, h2, r2) = bind-ok (get_flavor c registry) _ w1 w' tt r1 in
      let parse = b.parse_templates (b.join (templates_dir ∷ "*" ∷ [])) in
      let (a, w3, h3, r3) =
        bind-ok (annotate "couldn't parse templates" [] (lift parse)) _ w2 w' tt r2 in
      let (entries, w4, h4, r4) =
        bind-ok
          (annotate "couldn't read embedded templates directory" []
            (lift (b.read_dir templates_dir)))
          _ w3 w' tt r3 in
      let args = registry_args registry flavor in
      let (d, w5, h5, r5) = bind-ok (each_file (apply_template c l b args) entries) _ w4 w' tt r4 in
      let start : w4 ≡ w2 = sym (
        (annotate-lift-ok _ _ parse w2 w3 a h3).1
        ∙ (annotate-lift-ok _ _ (b.read_dir templates_dir) w3 w4 entries h4).1) in
      let name = "registry-" <> sanitized_registry_name registry in
      let (u, last) =
        retries (check_running c t name) w5 w'
          (annotate-ok _ _ (wait_for_running c t name) w5 w' tt r5) in
      let (p, ps, seen, running) = check_running-running name u w' last in
      record {
        registry = registry;
        flavor = flavor;
        entries = entries;
        pod = p;
        pods = ps;
        found = w1;
        chosen = w2;
        applied = w5;
        looked = u;
        is_found = annotate-ok _ _ (c.registries.get ref.name ref.namespace) w w1 registry (
            annotate-ok _ _
              (Resource.get c.registries (λ r. r.name) (λ r. r.namespace) ref.name ref.namespace) w
              w1 registry h1);
        is_chosen = h2;
        listed = (annotate-lift-ok _ _ (b.read_dir templates_dir) w3 w4 entries h4).0;
        templates =
            subst (λ v. Each (TemplateApplied args) (file_names entries) v w5) start
              (Each-map (apply_template-TemplateApplied args) (file_names entries) w4 w5
                (each_file-Each (apply_template c l b args) entries w4 w5 h5));
        seen = seen;
        running = running;
      }
