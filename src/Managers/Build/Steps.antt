-- ===== src/Managers/Build/Steps.antt =====
-- What the steps of a build did when they returned no error.
use kube_bundler.Prelude.{◌≡◌, refl, sym, ap, ◌∙◌, ℕ, String, ◌<>◌, ◌⊎◌, inl, inr, [], ◌∷◌, arith}
use mathlib.Core.Path.{subst}
use kube_bundler.Go.Errors.{Error}
use kube_bundler.Go.Io.{
  pure, Io, Result, ok, err, panic, Result-cases, annotate, bind-ok, annotate-ok, annotate-lift-ok,
  lift, ◌>>=◌, finally,
}
use kube_bundler.Api.{Application}
use kube_bundler.Api.Validate.{validate}
use kube_bundler.Managers.Import.{default_images_file}
use kube_bundler.Managers.Source.{default_app_file}
use kube_bundler.Managers.Build.{
  Docker, BuildTools, BuildManager, decode_and_check, load_app, launch_local_registry,
  stop_local_registry, copy_both, fill_zip, create_kb_file,
}

module _ {W : Type 0} (d : Docker W) (t : BuildTools W) (bm : BuildManager) where
  pub finally-ok :
      {A : Type 0} (e : Io W (Unit {0})) (m : Io W A) (w w' : W) (a : A)
      → finally e m w ≡ (ok a, w')
      → (u : W) × (m w ≡ (ok a, u)) × ((e u).1 ≡ w')
  finally-ok e m w w' a h = (
    (m w).1,
    ap (λ x. (x, (m w).1)) (ap (λ (x : Result _ × W). x.0) h),
    ap (λ (x : Result _ × W). x.1) h,
  )

  -- The application's file was opened, decoded and found valid, and closed.
  pub record Loaded (app : Application) (w w' : W) : Type 0 where
    pub file : ℕ
    pub opened : W
    pub decoded : W
    pub is_opened : t.open_file (t.join (bm.dir ∷ bm.app_file ∷ [])) w ≡ (ok file, opened)
    pub is_decoded : t.decode_app file opened ≡ (ok app, decoded)
    pub is_valid : validate app ≡ ok tt
    pub is_closed : (t.close file decoded).1 ≡ w'

  pub load_app-Loaded :
      (app : Application) (w w' : W) → load_app d t bm w ≡ (ok app, w') → Loaded app w w'
  unfolding load_app decode_and_check
  load_app-Loaded app w w' h =
      let open_app = t.open_file (t.join (bm.dir ∷ bm.app_file ∷ [])) in
      let (file, w1, h1, r1) =
        bind-ok (annotate "couldn't open application definition file" [] open_app) _ w w' app h in
      let (u, inside, closed) =
        finally-ok (t.close file) (decode_and_check d t bm file) w1 w' app r1 in
      let (x, w2, h2, r2) =
        bind-ok (annotate "couldn't decode app yaml" [] (t.decode_app file)) _ w1 u app inside in
      checked x w2 u file w1 (annotate-ok _ _ open_app w w1 file h1)
        (annotate-ok _ _ (t.decode_app file) w1 w2 x h2) r2 closed
    where
      checked :
          (x : Application) (w2 u : W) (file : ℕ) (w1 : W)
          → t.open_file (t.join (bm.dir ∷ bm.app_file ∷ [])) w ≡ (ok file, w1)
          → t.decode_app file w1 ≡ (ok x, w2)
          → (annotate "couldn't validate" [] (lift (validate x)) >>= λ _. pure x) w2 ≡ (ok app, u)
          → (t.close file u).1 ≡ w'
          → Loaded app w w'
      checked x w2 u file w1 opened decoded r2 closed =
          let (a, w3, h3, r3) =
            bind-ok (annotate "couldn't validate" [] (lift (validate x))) _ w2 u app r2 in
          let (valid, same) = annotate-lift-ok _ _ (validate x) w2 w3 a h3 in
          let app_eq : x ≡ app = ground (arith, r3) in
          let moved : w3 ≡ u = ground (arith, r3) in
          record {
            file = file;
            opened = w1;
            decoded = w2;
            is_opened = opened;
            is_decoded = subst (λ z. t.decode_app file w1 ≡ (ok z, w2)) app_eq decoded;
            is_valid = subst (λ z. validate z ≡ ok tt) app_eq valid;
            is_closed = subst (λ v. (t.close file v).1 ≡ w') (sym (same ∙ moved)) closed;
          }

  -- The container was created and started.
  pub record Launched (image id : String) (w w' : W) : Type 0 where
    pub made : W
    pub is_made : d.container_create image w ≡ (ok id, made)
    pub is_started : d.container_start id made ≡ (ok tt, w')

  pub launch-Launched :
      (image id : String) (w w' : W)
      → launch_local_registry d t bm image w ≡ (ok id, w')
      → Launched image id w w'
  unfolding launch_local_registry
  launch-Launched image id w w' h =
      let create = d.container_create image in
      let (x, w1, h1, r1) =
        bind-ok (annotate "couldn't launch kb registry" [] create) _ w w' id h in
      let start = d.container_start x in
      let (a, w2, h2, r2) =
        bind-ok (annotate "couldn't start kb registry" [] start) _ w1 w' id r1 in
      let id_eq : x ≡ id = ground (arith, r2) in
      let moved : w2 ≡ w' = ground (arith, r2) in
      record {
        made = w1;
        is_made = subst (λ z. create w ≡ (ok z, w1)) id_eq (annotate-ok _ _ create w w1 x h1);
        is_started =
            subst (λ z. d.container_start z w1 ≡ (ok tt, w')) id_eq
              (subst (λ v. start w1 ≡ (ok tt, v)) moved (annotate-ok _ _ start w1 w2 tt h2));
      }

  -- The application's file and the images were copied to their entries.
  pub record Copied (zip images app_entry source : ℕ) (w w' : W) : Type 0 where
    pub images_entry : ℕ
    pub copied : W
    pub entered : W
    pub is_copied : t.copy app_entry source w ≡ (ok tt, copied)
    pub is_entered : t.zip_create zip default_images_file copied ≡ (ok images_entry, entered)
    pub is_filled : t.copy images_entry images entered ≡ (ok tt, w')

  copy_both-Copied :
      (zip images app_entry source : ℕ) (w w' : W)
      → copy_both d t bm zip images app_entry source w ≡ (ok tt, w')
      → Copied zip images app_entry source w w'
  unfolding copy_both
  copy_both-Copied zip images app_entry source w w' h =
      let copy_app = t.copy app_entry source in
      let (a, w1, h1, r1) =
        bind-ok (annotate "couldn't copy from application definition to bundle" [] copy_app) _ w w'
          tt h in
      let enter = t.zip_create zip default_images_file in
      let (entry, w2, h2, r2) =
        bind-ok (annotate "couldn't open images file" [] enter) _ w1 w' tt r1 in
      record {
        images_entry = entry;
        copied = w1;
        entered = w2;
        is_copied = annotate-ok _ _ copy_app w w1 tt h1;
        is_entered = annotate-ok _ _ enter w1 w2 entry h2;
        is_filled = annotate-ok _ _ (t.copy entry images) w2 w' tt r2;
      }

  -- The entry of the application's file was made, the file was opened, both were copied, and the file was closed.
  pub record Filled (zip images : ℕ) (w w' : W) : Type 0 where
    pub app_entry : ℕ
    pub source : ℕ
    pub entered : W
    pub opened : W
    pub copied : W
    pub is_entered : t.zip_create zip default_app_file w ≡ (ok app_entry, entered)
    pub is_opened : t.open_file (t.join (bm.dir ∷ bm.app_file ∷ [])) entered ≡ (ok source, opened)
    pub are_copied : Copied zip images app_entry source opened copied
    pub is_closed : (t.close source copied).1 ≡ w'

  fill_zip-Filled :
      (zip images : ℕ) (w w' : W)
      → fill_zip d t bm zip images w ≡ (ok tt, w')
      → Filled zip images w w'
  unfolding fill_zip
  fill_zip-Filled zip images w w' h =
      let enter = t.zip_create zip default_app_file in
      let (entry, w1, h1, r1) =
        bind-ok (annotate "couldn't create application definition inside bundle" [] enter) _ w w' tt
          h in
      let open_app = t.open_file (t.join (bm.dir ∷ bm.app_file ∷ [])) in
      let (source, w2, h2, r2) =
        bind-ok (annotate "couldn't open application definition file" [] open_app) _ w1 w' tt r1 in
      let (u, inside, closed) =
        finally-ok (t.close source) (copy_both d t bm zip images entry source) w2 w' tt r2 in
      record {
        app_entry = entry;
        source = source;
        entered = w1;
        opened = w2;
        copied = u;
        is_entered = annotate-ok _ _ enter w w1 entry h1;
        is_opened = annotate-ok _ _ open_app w1 w2 source h2;
        are_copied = copy_both-Copied zip images entry source w2 u inside;
        is_closed = closed;
      }

  -- The file of the bundle was created, its zip file was filled, and both were closed.
  pub record Written (app : Application) (images : ℕ) (w w' : W) : Type 0 where
    pub file : ℕ
    pub zip : ℕ
    pub created : W
    pub zipped : W
    pub filled : W
    pub is_created :
        t.create (t.join (bm.dir ∷ (app.spec.name <> ("-" <> (app.spec.version <> ".kb"))) ∷ [])) w
        ≡ (ok file, created)
    pub is_zipped : t.new_zip file created ≡ (ok zip, zipped)
    pub is_filled : Filled zip images zipped filled
    pub is_closed : (t.close file (t.close_zip zip filled).1).1 ≡ w'

  pub create_kb_file-Written :
      (app : Application) (images : ℕ) (w w' : W)
      → create_kb_file d t bm app images w ≡ (ok tt, w')
      → Written app images w w'
  unfolding create_kb_file
  create_kb_file-Written app images w w' h =
      let create =
        t.create (t.join (bm.dir ∷ (app.spec.name <> ("-" <> (app.spec.version <> ".kb"))) ∷ [])) in
      let (file, w1, h1, r1) = bind-ok (annotate "couldn't create bundle" [] create) _ w w' tt h in
      let rest = λ (zip : ℕ). finally (t.close_zip zip) (fill_zip d t bm zip images) in
      let (u1, in1, c1) = finally-ok (t.close file) (t.new_zip file >>= rest) w1 w' tt r1 in
      let (zip, w2, h2, r2) = bind-ok (t.new_zip file) rest w1 u1 tt in1 in
      let (u2, in2, c2) = finally-ok (t.close_zip zip) (fill_zip d t bm zip images) w2 u1 tt r2 in
      record {
        file = file;
        zip = zip;
        created = w1;
        zipped = w2;
        filled = u2;
        is_created = annotate-ok _ _ create w w1 file h1;
        is_zipped = h2;
        is_filled = fill_zip-Filled zip images w2 u2 in2;
        is_closed = ap (λ x. (t.close file x).1) c2 ∙ c1;
      }

  -- The container was asked to stop, and then to be removed unless the stop failed.
  pub record Stopped (id : String) (w w' : W) : Type 0 where
    pub answer : Result (Unit {0})
    pub asked : W
    pub is_asked : d.container_stop id w ≡ (answer, asked)
    pub after :
        ((answer ≡ ok tt) × ((d.container_remove id asked).1 ≡ w'))
        ⊎ (((e : Error) × (answer ≡ err e)) × (asked ≡ w'))
        ⊎ (((why : String) × (answer ≡ panic why)) × (asked ≡ w'))

  pub stop-Stopped :
      (id : String) (w w' : W) → (stop_local_registry d t bm id w).1 ≡ w' → Stopped id w w'
  unfolding stop_local_registry
  stop-Stopped id w w' h = record {
    answer = (d.container_stop id w).0;
    asked = (d.container_stop id w).1;
    is_asked = refl;
    after = elim (Result-cases (d.container_stop id w).0) [
      | inl (_, p) ↦ inl (p, rw p at h)
      | inr (inl (e, p)) ↦ inr (inl ((e, p), rw p at h))
      | inr (inr (why, p)) ↦ inr (inr ((why, p), rw p at h))
    ];
  }
