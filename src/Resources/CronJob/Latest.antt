-- ===== src/Resources/CronJob/Latest.antt =====
-- Which job of a cron job its logs and its status speak of.
use mathlib.Core.Option.{some-injective}
use kube_bundler.Prelude.{
  ◌≤◌, ◌≡◌, refl, none, some, List, [], ◌∷◌, All, Bool-cases, inl, inr, leb, arith, leb→le, false,
}
use kube_bundler.Cluster.Objects.{Job}
use kube_bundler.Resources.CronJob.{insert_job, sort_jobs, latest_job}
use mathlib.Core.List.{Memᴰ}

before :
    (i j : Job)
    → leb i.creation_timestamp j.creation_timestamp ≡ false
    → j.creation_timestamp ≤ i.creation_timestamp
before i j h = ground arith

-- The head of a list is the latest of a list.
abbrev HeadLatest : List Job → List Job → Type 0
HeadLatest [] js = js ≡ []
HeadLatest (j ∷ _) js = Memᴰ j js × All (λ i. i.creation_timestamp ≤ j.creation_timestamp) js

All-le :
    (j i : Job) (js : List Job)
    → j.creation_timestamp ≤ i.creation_timestamp
    → All (λ x. x.creation_timestamp ≤ j.creation_timestamp) js
    → All (λ x. x.creation_timestamp ≤ i.creation_timestamp) js
All-le j i [] h all = tt
All-le j i (x ∷ js) h (first, rest) = (omega (arith, h, first), All-le j i js h rest)

insert_job-HeadLatest :
    (j : Job) (sorted js : List Job)
    → HeadLatest sorted js
    → HeadLatest (insert_job j sorted) (j ∷ js)
unfolding insert_job
insert_job-HeadLatest j [] js h = (Memᴰ.head refl, (omega arith, rw h tt))
insert_job-HeadLatest j (i ∷ rest) js h =
    elim (Bool-cases (leb i.creation_timestamp j.creation_timestamp)) [
      | inl e ↦
          let le = leb→le i.creation_timestamp j.creation_timestamp e in
          rw e (Memᴰ.head refl, (omega arith, All-le i j js le h.1))
      | inr e ↦ rw e (Memᴰ.tail h.0, (before i j e, h.1))
    ]

sort_jobs-HeadLatest : (js : List Job) → HeadLatest (sort_jobs js) js
unfolding sort_jobs
sort_jobs-HeadLatest [] = refl
sort_jobs-HeadLatest (j ∷ js) = insert_job-HeadLatest j (sort_jobs js) js (sort_jobs-HeadLatest js)

head-HeadLatest :
    (sorted js : List Job) (j : Job)
    → HeadLatest sorted js
    → elim sorted [ [] ↦ none | i ∷ _ ↦ some i ] ≡ some j
    → Memᴰ j js × All (λ i. i.creation_timestamp ≤ j.creation_timestamp) js
head-HeadLatest [] js j h e = ground arith
head-HeadLatest (i ∷ rest) js j h e = let p = some-injective i j e in rw p at h

-- The job that is looked into is one of the listed jobs, and none of them was created later.
latest_job-latest :
    (js : List Job) (j : Job)
    → latest_job js ≡ some j
    → Memᴰ j js × All (λ i. i.creation_timestamp ≤ j.creation_timestamp) js
unfolding latest_job
latest_job-latest js j h = head-HeadLatest (sort_jobs js) js j (sort_jobs-HeadLatest js) h
