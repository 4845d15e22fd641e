-- ===== src/Managers/Build/Laws.antt =====
-- What a build that ended with no error did.
use kube_bundler.Prelude.{◌≡◌, sym, ap, ◌∙◌, ℕ, String, ◌<>◌, Bool, true, List, [], ◌∷◌, arith}
use mathlib.Core.Path.{subst}
use kube_bundler.Go.Each.{Each}
use kube_bundler.Go.Errors.{text}
use kube_bundler.Go.Io.{Result, ok, annotate, bind-ok, annotate-ok, annotate-lift-ok, lift}
use kube_bundler.Api.{Application, ImageSpec}
use kube_bundler.Managers.Build.Steps.{
  Loaded, load_app-Loaded, Launched, launch-Launched, Written, create_kb_file-Written, Stopped,
  stop-Stopped, finally-ok,
}
use kube_bundler.Managers.Build.{
  Docker, BuildTools, BuildManager, Url, all_images, full_image, scheme_of, load_app,
  fetch_reg_auth, ignoring, pull_image, pull_images, push_image, push_images, launch_local_registry,
  stop_local_registry, copy_images, create_kb_file, build_with, build,
}

module _ {W : Type 0} (d : Docker W) (t : BuildTools W) (bm : BuildManager) where
  -- The image was pulled with the credentials of its registry, to the end of the progress.
  pub record Pulled (anonymous : Bool) (i : ImageSpec) (w w' : W) : Type 0 where
    pub auth : String
    pub reader : ℕ
    pub asked : W
    pub opened : W
    pub printed : W
    pub authorised :
        fetch_reg_auth d t bm (full_image i) (scheme_of i) anonymous w ≡ (ok auth, asked)
    pub is_pulled : d.image_pull i.image auth asked ≡ (ok reader, opened)
    pub is_printed : t.print reader opened ≡ (ok tt, printed)
    pub is_closed : (t.close reader printed).1 ≡ w'

  -- The image was tagged for the local registry and pushed there.
  pub record Pushed (i : ImageSpec) (w w' : W) : Type 0 where
    pub url : Url
    pub reader : ℕ
    pub tagged : W
    pub opened : W
    pub printed : W
    pub parsed : t.parse_url (full_image i) ≡ ok url
    pub is_tagged : d.image_tag i.image ("localhost:5000" <> url.path) w ≡ (ok tt, tagged)
    pub is_pushed :
        d.image_push ("localhost:5000" <> url.path) true "123" tagged ≡ (ok reader, opened)
    pub is_printed : t.print reader opened ≡ (ok tt, printed)
    pub is_closed : (t.close reader printed).1 ≡ w'

  pull_image-Pulled :
      (anonymous : Bool) (i : ImageSpec) (w w' : W)
      → pull_image d t bm anonymous i w ≡ (ok tt, w')
      → Pulled anonymous i w w'
  unfolding pull_image ignoring
  pull_image-Pulled anonymous i w w' h =
      let fetch = fetch_reg_auth d t bm (full_image i) (scheme_of i) anonymous in
      let (auth, w1, h1, r1) =
        bind-ok (annotate "unable to fetch the registry authString" [] fetch) _ w w' tt h in
      let pull = d.image_pull i.image auth in
      let (reader, w2, h2, r2) =
        bind-ok (annotate "couldn't pull image %s" (text i.image ∷ []) pull) _ w1 w' tt r1 in
      let (a, w3, h3, r3) =
        bind-ok (annotate "couldn't print image pull progress" [] (t.print reader)) _ w2 w' tt r2 in
      record {
        auth = auth;
        reader = reader;
        asked = w1;
        opened = w2;
        printed = w3;
        authorised = annotate-ok _ _ fetch w w1 auth h1;
        is_pulled = annotate-ok _ _ pull w1 w2 reader h2;
        is_printed = annotate-ok _ _ (t.print reader) w2 w3 tt h3;
        is_closed = ap (λ (x : Result (Unit {0}) × W). x.1) r3;
      }

  push_image-Pushed :
      (i : ImageSpec) (w w' : W) → push_image d t bm i w ≡ (ok tt, w') → Pushed i w w'
  unfolding push_image ignoring
  push_image-Pushed i w w' h =
      let (url, w1, h1, r1) =
        bind-ok (annotate "couldn't parse docker image URL" [] (lift (t.parse_url (full_image i))))
          _ w w' tt h in
      let (parsed, same) = annotate-lift-ok _ _ (t.parse_url (full_image i)) w w1 url h1 in
      let target = "localhost:5000" <> url.path in
      let tag = d.image_tag i.image target in
      let (a, w2, h2, r2) =
        bind-ok (annotate "couldn't tag image '%s' for local registry" (text target ∷ []) tag) _ w1
          w' tt r1 in
      let push = d.image_push target true "123" in
      let (reader, w3, h3, r3) =
        bind-ok (annotate "couldn't push image '%s' to local registry" (text target ∷ []) push) _ w2
          w' tt r2 in
      let (b, w4, h4, r4) =
        bind-ok (annotate "couldn't print push progress" [] (t.print reader)) _ w3 w' tt r3 in
      record {
        url = url;
        reader = reader;
        tagged = w2;
        opened = w3;
        printed = w4;
        parsed = parsed;
        is_tagged = subst (λ v. tag v ≡ (ok tt, w2)) (sym same) (annotate-ok _ _ tag w1 w2 tt h2);
        is_pushed = annotate-ok _ _ push w2 w3 reader h3;
        is_printed = annotate-ok _ _ (t.print reader) w3 w4 tt h4;
        is_closed = ap (λ (x : Result (Unit {0}) × W). x.1) r4;
      }

  pull_images-Each :
      (anonymous : Bool) (is : List ImageSpec) (w w' : W)
      → pull_images d t bm anonymous is w ≡ (ok tt, w')
      → Each (Pulled anonymous) is w w'
  unfolding pull_images
  pull_images-Each anonymous [] w w' h = ground (arith, h)
  pull_images-Each anonymous (i ∷ is) w w' h =
      let (a, u, first, rest) =
        bind-ok (pull_image d t bm anonymous i) (λ _. pull_images d t bm anonymous is) w w' tt h in
      (u, pull_image-Pulled anonymous i w u first, pull_images-Each anonymous is u w' rest)

  push_images-Each :
      (is : List ImageSpec) (w w' : W) → push_images d t bm is w ≡ (ok tt, w') → Each Pushed is w w'
  unfolding push_images
  push_images-Each [] w w' h = ground (arith, h)
  push_images-Each (i ∷ is) w w' h =
      let (a, u, first, rest) =
        bind-ok (push_image d t bm i) (λ _. push_images d t bm is) w w' tt h in
      (u, push_image-Pushed i w u first, push_images-Each is u w' rest)

  -- The calls of a build with no error.
  pub record Built (registry_image : String) (anonymous : Bool) (w w' : W) : Type 0 where
    pub app : Application
    pub id : String
    pub tar : ℕ
    pub loaded : W
    pub launched : W
    pub pulled : W
    pub pushed : W
    pub copied : W
    pub written : W
    pub is_loaded : Loaded d t bm app w loaded
    pub is_launched : Launched d t bm registry_image id loaded launched
    pub is_pulled : Each (Pulled anonymous) (all_images app) launched pulled
    pub is_pushed : Each Pushed (all_images app) pulled pushed
    pub is_copied : d.copy_from_container id "/var/lib/registry/docker" pushed ≡ (ok tar, copied)
    pub is_written : Written d t bm app tar copied written
    pub is_stopped : Stopped d t bm id (t.close tar written).1 w'

  -- If a build ends with no error, then, one after another: the application was read and found valid, the container of the
  -- local registry was created and started, each image of the application and its deploy image was pulled and its progress printed, then
  -- each was tagged for the local registry, pushed and its progress printed, what the registry held was asked for as an archive, the application's file
  -- and this archive were copied to two entries of a new zip file, the files were closed, and the container was asked to stop, and if it did, to be removed. The errors of the
  -- closes and of the stop are dropped, and what the printed progress says is not looked at.
  pub build-Built :
      (registry_image : String) (anonymous : Bool) (w w' : W)
      → build d t bm registry_image anonymous w ≡ (ok tt, w')
      → Built registry_image anonymous w w'
  unfolding build build_with copy_images
  build-Built registry_image anonymous w w' h =
      let load = load_app d t bm in
      let (app, w1, h1, r1) = bind-ok (annotate "couldn't create bundle" [] load) _ w w' tt h in
      let launch = launch_local_registry d t bm registry_image in
      let (id, w2, h2, r2) =
        bind-ok (annotate "couldn't launch local registry" [] launch) _ w1 w' tt r1 in
      let (u, inside, stopped) =
        finally-ok d t bm (stop_local_registry d t bm id) (build_with d t bm anonymous app id) w2 w'
          tt r2 in
      let pull = pull_images d t bm anonymous (all_images app) in
      let (a, w3, h3, r3) =
        bind-ok (annotate "couldn't pull bundle images" [] pull) _ w2 u tt inside in
      let push = push_images d t bm (all_images app) in
      let (b, w4, h4, r4) = bind-ok (annotate "couldn't push bundle images" [] push) _ w3 u tt r3 in
      let copy = copy_images d t bm id in
      let (tar, w5, h5, r5) =
        bind-ok (annotate "couldn't copy bundle images" [] copy) _ w4 u tt r4 in
      let write = create_kb_file d t bm app tar in
      let (v, made, closed) =
        finally-ok d t bm (t.close tar) (annotate "couldn't create bundle" [] write) w5 u tt r5 in
      record {
        app = app;
        id = id;
        tar = tar;
        loaded = w1;
        launched = w2;
        pulled = w3;
        pushed = w4;
        copied = w5;
        written = v;
        is_loaded = load_app-Loaded d t bm app w w1 (annotate-ok _ _ load w w1 app h1);
        is_launched =
            launch-Launched d t bm registry_image id w1 w2 (annotate-ok _ _ launch w1 w2 id h2);
        is_pulled =
            pull_images-Each anonymous (all_images app) w2 w3 (annotate-ok _ _ pull w2 w3 tt h3);
        is_pushed = push_images-Each (all_images app) w3 w4 (annotate-ok _ _ push w3 w4 tt h4);
        is_copied =
            annotate-ok _ _ (d.copy_from_container id "/var/lib/registry/docker") w4 w5 tar
              (annotate-ok _ _ copy w4 w5 tar h5);
        is_written =
            create_kb_file-Written d t bm app tar w5 v (annotate-ok _ _ write w5 v tt made);
        is_stopped =
            stop-Stopped d t bm id (t.close tar v).1 w'
              (ap (λ x. (stop_local_registry d t bm id x).1) closed ∙ stopped);
      }
