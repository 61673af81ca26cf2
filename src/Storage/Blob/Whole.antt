-- ===== src/Storage/Blob/Whole.antt =====
-- The steps of `put_bytes`, and what they ask of the file system.
use second_capture.Base.{
  ℕ, ◌≡◌, ◌≢◌, refl, sym, ap, subst, ◌⊎◌, inl, inr, String, ◌<>◌, List, arith,
}
use second_capture.Base.Lines.{size}
use second_capture.Base.Sizes.{size-append}
use second_capture.Base.Errors.{Exc, Outcome, ok, err, Outcome-cases}
use second_capture.Storage.Blob.{
  StoreSettings, PathParts, FileSystem, parent, name, key_to_path, tmp_path, put_at, put_bytes,
  get_bytes,
}

-- What a file system keeps: making a directory keeps files, a write keeps other files, whether it
-- ends or raises, and is read back where it ends, and a replacement moves a file where it ends and
-- keeps its target where it raises.
pub record KeepsFiles (fs : FileSystem) : Type 0 where
  pub mkdir_keeps :
      (p d : PathParts) (files : fs.Files) (c : List ℕ)
      → fs.read_bytes p files ≡ ok c
      → fs.read_bytes p (fs.mkdir d files).1 ≡ ok c
  pub write_keeps :
      (p q : PathParts) (data_ : List ℕ) (files : fs.Files) (c : List ℕ)
      → q ≢ p
      → fs.read_bytes p files ≡ ok c
      → fs.read_bytes p (fs.write_bytes q data_ files).1 ≡ ok c
  pub write_reads :
      (q : PathParts) (data_ : List ℕ) (files : fs.Files)
      → (fs.write_bytes q data_ files).0 ≡ ok tt
      → fs.read_bytes q (fs.write_bytes q data_ files).1 ≡ ok data_
  pub replace_moves :
      (q p : PathParts) (files : fs.Files) (c : List ℕ)
      → (fs.replace q p files).0 ≡ ok tt
      → fs.read_bytes q files ≡ ok c
      → fs.read_bytes p (fs.replace q p files).1 ≡ ok c
  pub replace_keeps :
      (q p : PathParts) (files : fs.Files) (x : Exc) (c : List ℕ)
      → (fs.replace q p files).0 ≡ err x
      → fs.read_bytes p files ≡ ok c
      → fs.read_bytes p (fs.replace q p files).1 ≡ ok c

-- The temporary file has a longer name.
tmp_apart : (hex : String) (p : PathParts) → tmp_path hex p ≢ p
unfolding tmp_path size
tmp_apart hex p e = ground (
  arith,
  ap (λ q. size (name q)) e,
  size-append ".tmp-" (name p <> ("-" <> hex)),
  size-append (name p) ("-" <> hex),
)

module _ (fs : FileSystem) (laws : KeepsFiles fs) where
  abbrev IsWhole : {A : Type 0} → A → PathParts → List ℕ → fs.Files → Outcome A × fs.Files → Type 0
  IsWhole a p data_ files out =
      ((out.0 ≡ ok a) × (fs.read_bytes p out.1 ≡ ok data_))
      ⊎ ((x : Exc) × (out.0 ≡ err x)
          × ((c : List ℕ) → fs.read_bytes p files ≡ ok c → fs.read_bytes p out.1 ≡ ok c))

  put_at-IsWhole :
      (hex : String) (p : PathParts) (data_ : List ℕ) (files : fs.Files)
      → IsWhole tt p data_ files (put_at fs hex p data_ files)
  unfolding put_at
  put_at-IsWhole hex p data_ files = elim (Outcome-cases (fs.mkdir (parent p) files).0) [
    | inr (x, e) ↦
        let stopped : put_at fs hex p data_ files ≡ (err x, made) = ground arith in
        subst (IsWhole tt p data_ files) (sym stopped)
          (inr (x, refl, λ c h. laws.mkdir_keeps p (parent p) files c h))
    | inl (u, e) ↦ elim (Outcome-cases (fs.write_bytes tmp data_ made).0) [
      | inr (x, e') ↦
          let stopped : put_at fs hex p data_ files ≡ (err x, written) = ground arith in
          subst (IsWhole tt p data_ files) (sym stopped) (inr (x, refl, kept))
      | inl (u', e') ↦
          let ends : put_at fs hex p data_ files ≡ fs.replace tmp p written = ground arith in
          subst (IsWhole tt p data_ files) (sym ends)
            (elim (Outcome-cases (fs.replace tmp p written).0) [
              | inr (x, e'') ↦
                  inr (x, e'', λ c h. laws.replace_keeps tmp p written x c e'' (kept c h))
              | inl (u'', e'') ↦ inl (
                e'',
                laws.replace_moves tmp p written data_ e'' (laws.write_reads tmp data_ made e'),
              )
            ])
    ]
  ]
    where
      made : fs.Files
      made = (fs.mkdir (parent p) files).1

      tmp : PathParts
      tmp = tmp_path hex p

      written : fs.Files
      written = (fs.write_bytes tmp data_ made).1

      kept : (c : List ℕ) → fs.read_bytes p files ≡ ok c → fs.read_bytes p written ≡ ok c
      kept c h =
          laws.write_keeps p tmp data_ made c (tmp_apart hex p)
            (laws.mkdir_keeps p (parent p) files c h)

  module _ (s : StoreSettings) where
    -- A put returns the key, and the blob is then read back; or it raises, and a blob that could be
    -- read before is read as it was, where a file system keeps files in the sense of KeepsFiles.
    pub put_bytes-IsWhole :
        (hex key : String) (data_ : List ℕ) (files : fs.Files)
        → let out = put_bytes fs s hex key data_ files in
          ((out.0 ≡ ok key) × (get_bytes fs s key out.1 ≡ ok data_))
          ⊎ ((x : Exc) × (out.0 ≡ err x)
              × ((c : List ℕ) → get_bytes fs s key files ≡ ok c → get_bytes fs s key out.1 ≡ ok c))
    unfolding put_bytes get_bytes
    put_bytes-IsWhole hex key data_ files = elim (Outcome-cases (key_to_path fs s key)) [
      | inr (x, e) ↦ inr (x, ground arith, λ c h. ground arith)
      | inl (p, e) ↦ elim (put_at-IsWhole hex p data_ files) [
        | inl (returned, read) ↦ inl (ground arith, ground arith)
        | inr (x, raised, kept) ↦ inr (x, ground arith, λ c h. ground (arith, kept c))
      ]
    ]
