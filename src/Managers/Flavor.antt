-- ===== src/Managers/Flavor.antt =====
-- managers/flavor.go.
use kube_bundler.Prelude.{String}
use kube_bundler.Prelude.{[], ◌∷◌}
use kube_bundler.Go.Errors.{text}
use kube_bundler.Go.Io.{Result, ok, err, panic, Io, pure, crash, annotate, attempt, ◌>>=◌, ◌>>◌}
use kube_bundler.Api.{Flavor, FlavorSpec}
use kube_bundler.Cluster.Clients.{Objects}
use kube_bundler.Managers.Resource

module _ {W : Type 0} (flavors : Objects W Flavor) where
  -- What follows the read. Any error of it leads to the creation.
  existing_or : Flavor → Result Flavor → Io W Flavor
  existing_or flavor (ok found) = pure found
  existing_or flavor (panic why) = crash why
  existing_or flavor (err e) = do
    annotate "couldn't create flavor %s" (text flavor.name ∷ [])
        (Resource.create flavors (λ f. f.name) (λ f. f.namespace) flavor)
    pure flavor

  unfoldable pub create : String → String → FlavorSpec → Io W Flavor
  unfolding existing_or
  create name namespace spec = do
    r ← attempt (Resource.get flavors (λ f. f.name) (λ f. f.namespace) name namespace)
    existing_or (record { name = name; namespace = namespace; spec = record spec { name = "" } }) r

  unfoldable pub get : String → String → Io W Flavor
  get name namespace =
      annotate "Could not find flavor %s" (text name ∷ [])
        (Resource.get flavors (λ f. f.name) (λ f. f.namespace) name namespace)
