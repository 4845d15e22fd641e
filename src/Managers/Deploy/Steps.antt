-- ===== src/Managers/Deploy/Steps.antt =====
-- What the steps of a deploy before its wait have done when they return no error.
use kube_bundler.Prelude.{sym, ap}
use kube_bundler.Prelude.{
  ℕ, String, ◌≢◌, ◌<>◌, ◌≡◌, refl, ◌⊎◌, inl, inr, [], ◌∷◌, String-discrete, arith, if◌then◌else◌,
  ◌==◌, sym, ap,
}
use mathlib.Core.Logic.{if_pos, if_neg}
use kube_bundler.Go.Io.{ok, bind-ok}
use kube_bundler.Go.Io
use kube_bundler.Go.Run.{Gives, annotate, annotate-ok}
use kube_bundler.Go.Errors.{text}
use kube_bundler.Managers.Client.{KbClient, Libraries}
use kube_bundler.Managers.Config.{InstallReference}
use kube_bundler.Managers.DeployJob.{
  DeployInfo, deploy_job, create_job, Files, encode_files, with_files, no_config_map,
  create_or_patch_configmap,
}
use kube_bundler.Managers.Resource
use kube_bundler.Managers.Resource.Laws.{
  Requested, delete-Requested, Changed, create_or_patch-Changed,
}
use kube_bundler.Managers.Prepare.{
  DeployOpts, prepare, get_flavor, check_required, choose_images, filled,
}
use kube_bundler.Managers.Rollout
use kube_bundler.Managers.Util.{action_smoketest, get_name_with_action}
use kube_bundler.Managers.Deploy.{delete_job, clear_job, write_configmap, start_job}

module _ {W Key U : Type 0} (c : KbClient W Key U) (l : Libraries W U) where
  -- What is prepared is named after the install, and has the action and the timeout asked for.
  pub record Prepared (ref : InstallReference) (opts : DeployOpts) (info : DeployInfo)
      : Type 0 where
    pub name_eq : info.name ≡ ref.name
    pub namespace_eq : info.namespace ≡ ref.namespace
    pub action_eq : info.action ≡ opts.action
    pub timeout_eq : info.timeout ≡ opts.timeout

  pub prepare-Prepared :
      (ref : InstallReference) (opts : DeployOpts) (info : DeployInfo) (w w' : W)
      → prepare c l ref opts w ≡ (ok info, w')
      → Prepared ref opts info
  unfolding prepare
  prepare-Prepared ref opts info w w' e =
      let (install, w1, _, e1) = bind-ok (Rollout.get_install c ref) _ w w' info e in
      let (flavor, w2, _, e2) = bind-ok (get_flavor c l install.spec.flavor) _ w1 w' info e1 in
      let (app, w3, _, e3) = bind-ok (Rollout.get_app c install ref.namespace) _ w2 w' info e2 in
      let (_, w4, _, e4) = bind-ok (check_required c l ref app install) _ w3 w' info e3 in
      let (images, w5, _, e5) = bind-ok (choose_images c l install app) _ w4 w' info e4 in
      let p : filled c l ref opts app flavor images ≡ info = ground (arith, e5) in
      record {
        name_eq = sym (ap (λ (i : DeployInfo). i.name) p);
        namespace_eq = sym (ap (λ (i : DeployInfo). i.namespace) p);
        action_eq = sym (ap (λ (i : DeployInfo). i.action) p);
        timeout_eq = sym (ap (λ (i : DeployInfo). i.timeout) p);
      }

-- The name of the job of an install: a smoke test has a job of its own.
abbrev pub JobNamed : String → InstallReference → String → Type 0
JobNamed action ref name =
    ((action ≡ "smoketest") × (name ≡ ref.name <> "-smoketest"))
    ⊎ ((action ≢ "smoketest") × (name ≡ ref.name))

pub deploy_job-JobNamed :
    (info : DeployInfo) (ref : InstallReference)
    → info.name ≡ ref.name
    → JobNamed info.action ref (deploy_job info).name
unfolding deploy_job get_name_with_action
deploy_job-JobNamed info ref p = elim (String-discrete info.action action_smoketest) [
  | yes q ↦ inl (q, rw (if_pos _ q) (ap (λ n. n <> "-smoketest") p))
  | no n ↦ inr (n, rw (if_neg _ n) p)
]

module _ {W Key U : Type 0} (c : KbClient W Key U) (l : Libraries W U) (fuel : ℕ) where
  pub clear_job-Requested :
      (info : DeployInfo) (ref : InstallReference) (w w' : W)
      → Gives (clear_job c l fuel info ref) w tt w'
      → (name : String) × JobNamed info.action ref name
        × Requested c.jobs c.clientset.clock name ref.namespace w w'
  unfolding clear_job delete_job
  clear_job-Requested info ref w w' e =
      let name = if info.action == action_smoketest then ref.name <> "-smoketest" else ref.name in
      let remove = Resource.delete c.jobs c.clientset.clock name ref.namespace fuel in
      let deletion = annotate-ok _ _ (annotate "couldn't delete job" [] remove) w w' tt e in
      (
        name,
        elim (String-discrete info.action action_smoketest) [
          | yes q ↦ inl (q, rw (if_pos _ q) refl)
          | no n ↦ inr (n, rw (if_neg _ n) refl)
        ],
        delete-Requested c.jobs c.clientset.clock name ref.namespace fuel w w'
            (annotate-ok _ _ remove w w' tt deletion),
      )

  pub start_job-created :
      (info : DeployInfo) (w w' : W)
      → Gives (start_job c l fuel info) w tt w'
      → c.jobs.create (deploy_job info) w ≡ (ok tt, w')
  unfolding start_job create_job Resource.create
  start_job-created info w w' e =
      let job = deploy_job info in
      let make =
        Io.annotate "couldn't create resource %q" (text job.name ∷ []) (c.jobs.create job) in
      let create = Io.annotate "couldn't create job" [] make in
      let format : String = "couldn't create job for %q" in
      let p : Io.annotate format (text info.name ∷ []) create w ≡ (ok tt, w') = ground (arith, e) in
      Io.annotate-ok _ _ (c.jobs.create job) w w' tt
        (Io.annotate-ok _ _ make w w' tt (Io.annotate-ok _ _ create w w' tt p))

  -- The texts of the install were encoded, and its config map was read and written with them.
  pub record Written (info : DeployInfo) (w w' : W) : Type 0 where
    pub files : Files
    pub encoded : W
    pub is_encoded : encode_files c l info w ≡ (ok files, encoded)
    pub is_changed :
        Changed c.config_maps
          (λ name namespace cm. record cm { name = name; namespace = namespace })
          c.create_or_patch
          info.config_map
          info.namespace
          no_config_map
          (with_files files)
          encoded
          w'

  pub write_configmap-Written :
      (info : DeployInfo) (w w' : W)
      → Gives (write_configmap c l fuel info) w tt w'
      → Written info w w'
  unfolding write_configmap create_or_patch_configmap
  write_configmap-Written info w w' e =
      let write = create_or_patch_configmap c l info in
      let format : String = "couldn't create or update configmap for %q" in
      let p : Io.annotate format (text info.name ∷ []) write w ≡ (ok tt, w') = ground (arith, e) in
      let q = Io.annotate-ok _ _ write w w' tt p in
      let (files, u, h1, r1) = bind-ok (encode_files c l info) _ w w' tt q in
      let change =
        Resource.create_or_patch c.config_maps
          (λ name namespace cm. record cm { name = name; namespace = namespace }) c.create_or_patch
          info.config_map info.namespace no_config_map (with_files files) in
      record {
        files = files;
        encoded = u;
        is_encoded = h1;
        is_changed =
            create_or_patch-Changed c.config_maps _ c.create_or_patch info.config_map info.namespace
              no_config_map (with_files files) u w' (Io.annotate-ok _ _ change u w' tt r1);
      }
