-- ===== src/Tests/Imports.antt =====
-- An archive of one file, whose world counts the entries that were read, and its import.
use kube_bundler.Prelude.{
  ◌≡◌, refl, ℕ, zero, suc, ◌-◌, ◌<◌, ◌≤◌, Option, none, some, List, [], arith,
}
use kube_bundler.Go.Each.{Each}
use kube_bundler.Go.Errors.{Error, Kind, leaf, errorf, is_file_not_exist}
use kube_bundler.Go.Io.{Io, Result, ok, err}
use kube_bundler.Go.Run.{Returns}
use kube_bundler.Api.Registry.{Registry}
use kube_bundler.Managers.Extract.{Header, regular, TarTools, extract}
use kube_bundler.Managers.Extract.Laws.{CopyNeedsFile, Extracted, extract-Extracted}
use kube_bundler.Managers.Extract.Total.{IsFinite, extract-total}
use kube_bundler.Managers.Import.Chosen.{Chosen}
use kube_bundler.Managers.Resource
use kube_bundler.Managers.Source.{BundleRef, Files, Source}

abbrev header : Header
header = record { name = "layer"; type = regular; size = 5; mod_time = 0 }

abbrev exists : Error
exists = leaf Kind.file_exist "file exists" []

abbrev next_entry : ℕ → Result (Option Header) × ℕ
next_entry zero = (ok (some header), 1)
next_entry (suc n) = (ok none, suc n)

abbrev copy_to : Option ℕ → ℕ → Io ℕ (Unit {0})
copy_to none archive w = (err (errorf "invalid argument" []), w)
copy_to (some f) archive w = (ok tt, w)

abbrev tar : TarTools ℕ
tar = record {
  next = λ archive w. next_entry w;
  join = λ parts. "/images/layer";
  mkdir_all = λ path w. (ok tt, w);
  stat = λ path w. (err (leaf Kind.file_not_exist "no such file" []), w);
  open_new = λ path w. (ok 7, w);
  copy = copy_to;
  close = λ f w. (ok tt, w);
}

tar-CopyNeedsFile : CopyNeedsFile tar 9
tar-CopyNeedsFile w = (errorf "invalid argument" [], w, refl)

extract-Extracted_example : (hs : List Header) × Extracted tar 9 "/images" hs 0 1
unfolding extract is_file_not_exist
extract-Extracted_example = extract-Extracted tar 9 tar-CopyNeedsFile 2 "/images" 0 1 refl

abbrev left : ℕ → ℕ
left w = 1 - w

next-fewer : (w u : ℕ) (h : Header) → next_entry w ≡ (ok (some h), u) → left u < left w
next-fewer zero u h e = ground (arith, e)
next-fewer (suc w) u h e = ground (arith, e)

copy-same : (out : Option ℕ) (w : ℕ) → left (copy_to out 9 w).1 ≤ left w
copy-same none w = omega arith
copy-same (some f) w = omega arith

tar-IsFinite : IsFinite left tar 9
tar-IsFinite = record {
  reads = next-fewer;
  makes = λ path w. omega arith;
  looks = λ path w. omega arith;
  creates = λ path w. omega arith;
  copies = copy-same;
  closes = λ out w. omega arith;
}

extract-total_example : Returns (extract tar 9 2 "/images" 0)
extract-total_example = extract-total left tar 9 tar-IsFinite 2 "/images" 0 (omega arith)

abbrev files : Files ℕ
files = record {
  stat = λ path w. (ok 1, w);
  open_file = λ path w. (ok 1, w);
  decode_latest = λ f w. (ok "1.0", w);
  zip_reader = λ f size w. (ok 4, w);
  open_entry = λ z name w. (ok 9, w);
  decode_app = λ f w. (err (errorf "no app" []), w);
  close = λ f w. w;
  join = λ parts. "/images";
  base = λ path. path;
}

abbrev bundle : BundleRef
bundle = record { name = "redis"; version = "1.0" }

abbrev source : Source ℕ
source = record {
  get = λ ref w. (ok (record { ref = ref; contents = 3; size = 100 }), w);
  put = λ b w. (ok tt, w);
}

abbrev entry_size : ℕ → Io ℕ ℕ
entry_size f w = (ok 10, w)
