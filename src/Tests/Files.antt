-- ===== src/Tests/Files.antt =====
-- Runs of the records and of the store of blobs.
use second_capture.Base.{
  ℕ, ◌≡◌, refl, ◌⊎◌, String, str_eq, eq_iff, Bool, true, false, ◌&&◌, none, List, [], ◌∷◌, arith,
  if◌then◌else◌,
}
use second_capture.Base.Text.{norm, strip, lower, is_empty, contains, split}
use second_capture.Auth.Security.{is_prod_env}
use second_capture.Base.Dict.{lookup}
use second_capture.Base.Errors.{Exc, other, Outcome, ok, err, is_ok}
use second_capture.Config.{pos}
use second_capture.Storage.Records.{missing, content, Disk}
use second_capture.Storage.Records.Numbers.{IsNumbered}
use second_capture.Storage.Records.Laws.{ensured, renamed, run, run-IsNumbered}
use second_capture.Storage.Blob.{
  StoreSettings, PathParts, FileSystem, key_to_path, under, without_slashes, base_dir, storage_mode,
  put_bytes, get_bytes,
}
use second_capture.Storage.Blob.Laws.{IsBelow, key_to_path-IsBelow}
use second_capture.Storage.Blob.Whole.{KeepsFiles, put_bytes-IsWhole}

-- One meeting has a number; there is no counter.
abbrev disk : Disk
disk = record {
  counter = missing;
  metas =
      (
        "a",
        content (record {
          record_index = ok (pos 3);
          display_name = "Запись 3";
          created_at = "t";
          updated_at = "t";
        }),
      )
      ∷ [];
  own = missing;
}

disk-IsNumbered : IsNumbered disk
unfolding lookup
disk-IsNumbered = (
  λ a c. omega (arith, c),
  λ a b pos_a same. ground (arith, eq_iff a b, eq_iff "a" a, eq_iff "a" b),
)

run-IsNumbered_example :
    IsNumbered (
      run
        (ensured "t" "Запись" "b" ∷ (renamed "t" "c" "Встреча" ∷ (renamed "t" "a" " " ∷ [])))
        disk)
run-IsNumbered_example =
    run-IsNumbered
      (ensured "t" "Запись" "b" ∷ (renamed "t" "c" "Встреча" ∷ (renamed "t" "a" " " ∷ []))) disk
      disk-IsNumbered

abbrev path_eq : PathParts → PathParts → Bool
path_eq [] [] = true
path_eq (x ∷ p) (y ∷ q) = str_eq x y && path_eq p q
path_eq [] (y ∷ q) = false
path_eq (x ∷ p) [] = false

path_eq_same : (p q : PathParts) → path_eq p q ≡ true → p ≡ q
path_eq_same [] [] h = refl
path_eq_same [] (y ∷ q) h = ground arith
path_eq_same (x ∷ p) [] h = ground arith
path_eq_same (x ∷ p) (y ∷ q) h = ground (arith, path_eq_same p q, eq_iff x y)

path_eq_refl : (p : PathParts) → path_eq p p ≡ true
path_eq_refl [] = refl
path_eq_refl (x ∷ p) = ground (arith, path_eq_refl p, eq_iff x x)

abbrev Files : Type 0
Files = PathParts → Outcome (List ℕ)

abbrev moved : PathParts → PathParts → Outcome (List ℕ) → Files → Outcome (Unit {0}) × Files
moved q p (err x) files = (err x, files)
moved q p (ok c) files = (
  ok tt,
  λ r. if path_eq p r then ok c else if path_eq q r then err (other "missing") else files r,
)

abbrev file_system : FileSystem
file_system = record {
  Files = Files;
  resolve = λ dir. dir ∷ [];
  mkdir = λ d files. (ok tt, files);
  write_bytes = λ q c files. (ok tt, λ p. if path_eq q p then ok c else files p);
  read_bytes = λ p files. files p;
  replace = λ q p files. moved q p (files q) files;
  unlink = λ p files. (ok true, λ q. if path_eq p q then err (other "missing") else files q);
  exists = λ p files. is_ok (files p);
}

keeps_files : KeepsFiles file_system
keeps_files = record {
  mkdir_keeps = λ p d files c h. h;
  write_keeps = λ p q c' files c apart h. ground (arith, path_eq_same q p);
  write_reads = λ q c files h. ground (arith, path_eq_refl q);
  replace_moves = λ q p files c h read. ground (arith, path_eq_refl p);
  replace_keeps = λ q p files x c h read. ground arith;
}

abbrev store_settings : StoreSettings
store_settings = record {
  app_env = "dev";
  storage_require_shared_in_prod = true;
  storage_mode = "local_fs";
  storage_shared_fs_dir = "";
  chunks_dir = "chunks";
  environ_chunks_dir = none;
}

abbrev files : Files
files = λ p.
    if path_eq ("1.bin" ∷ ("m" ∷ ("chunks" ∷ []))) p then ok (1 ∷ []) else err (other "missing")

put_bytes-IsWhole_example :
    let out = put_bytes file_system store_settings "f0" "/m/1.bin" (2 ∷ []) files in
    ((out.0 ≡ ok "/m/1.bin")
      × (get_bytes file_system store_settings "/m/1.bin" out.1 ≡ ok (2 ∷ [])))
    ⊎ ((x : Exc) × (out.0 ≡ err x)
        × ((c : List ℕ)
            → get_bytes file_system store_settings "/m/1.bin" files ≡ ok c
            → get_bytes file_system store_settings "/m/1.bin" out.1 ≡ ok c))
put_bytes-IsWhole_example =
    put_bytes-IsWhole file_system keeps_files store_settings "f0" "/m/1.bin" (2 ∷ []) files

path_lem :
    key_to_path file_system store_settings "/m//./1.bin" ≡ ok ("1.bin" ∷ ("m" ∷ ("chunks" ∷ [])))
unfolding key_to_path base_dir storage_mode under without_slashes norm strip lower is_empty contains
    split is_prod_env
path_lem = refl

key_to_path-IsBelow_example :
    (dir : String) × (base_dir store_settings ≡ ok dir)
    × IsBelow (dir ∷ []) ("1.bin" ∷ ("m" ∷ ("chunks" ∷ [])))
key_to_path-IsBelow_example =
    key_to_path-IsBelow file_system store_settings "/m//./1.bin" ("1.bin" ∷ ("m" ∷ ("chunks" ∷ [])))
      path_lem

up_refused : key_to_path file_system store_settings "m/../../x" ≡ err (other "invalid key")
unfolding key_to_path without_slashes contains split
up_refused = refl
