-- ===== src/Storage/Blob/Laws.antt =====
-- Where a key leads (`_key_to_path`).
use second_capture.Base.{
  ◌≡◌, refl, sym, ap, subst, ◌∙◌, inl, inr, String, str_eq, true, false, ◌||◌, List, [], ◌∷◌, ◌++◌,
  All, Bool-cases, arith, if◌then◌else◌,
}
use second_capture.Base.Text.{is_empty, contains}
use second_capture.Base.Errors.{Exc, other, Outcome, ok, err, Outcome-cases}
use second_capture.Storage.Blob.{
  StoreSettings, PathParts, FileSystem, base_dir, under, key_parts, key_to_path,
}

ok_inj : {A : Type 0} {a b : A} → Outcome.ok a ≡ ok b → a ≡ b
ok_inj e = ground arith

-- A part of a path that leads on: not empty, not `.` and not `..`.
abbrev pub IsProper : String → Type 0
IsProper part = (is_empty part || str_eq part "." || str_eq part "..") ≡ false

abbrev pub IsBelow : PathParts → PathParts → Type 0
IsBelow base p = (parts : PathParts) × (p ≡ parts ++ base) × All IsProper parts

-- One part more.
next_part : PathParts → String → PathParts
next_part base part = if is_empty part || str_eq part "." then base else part ∷ base

IsBelow-next_part :
    (base p : PathParts) (part : String)
    → str_eq part ".." ≡ false
    → IsBelow base p
    → IsBelow base (next_part p part)
unfolding next_part
IsBelow-next_part base p part up (parts, e, proper) =
    elim (Bool-cases (is_empty part || str_eq part ".")) [
      | inl skipped ↦ subst (IsBelow base) (skip skipped) (parts, e, proper)
      | inr named ↦
          subst (IsBelow base) (add named)
            (part ∷ parts, ap (λ q. part ∷ q) e, (ground (arith, named), proper))
    ]
  where
    skip : (is_empty part || str_eq part ".") ≡ true → p ≡ next_part p part
    skip skipped = ground arith

    add : (is_empty part || str_eq part ".") ≡ false → (part ∷ p) ≡ next_part p part
    add named = ground arith

under-IsBelow :
    (base parts p : List String)
    → contains ".." parts ≡ false
    → IsBelow base p
    → IsBelow base (under p parts)
unfolding under contains next_part
under-IsBelow base [] p up h = h
under-IsBelow base (part ∷ rest) p up h =
    under-IsBelow base rest (next_part p part) (ground arith)
      (IsBelow-next_part base p part (ground arith) h)

module _ (fs : FileSystem) (s : StoreSettings) where
  up_lem :
      (key : String)
      → contains ".." (key_parts key) ≡ true
      → (x : Exc) × (key_to_path fs s key ≡ err x)
  unfolding key_to_path
  up_lem key up = (other "invalid key", ground arith)

  closed_lem :
      (key : String) (x : Exc)
      → contains ".." (key_parts key) ≡ false
      → base_dir s ≡ err x
      → key_to_path fs s key ≡ err x
  unfolding key_to_path
  closed_lem key x down e = ground arith

  path_lem :
      (key dir : String)
      → contains ".." (key_parts key) ≡ false
      → base_dir s ≡ ok dir
      → key_to_path fs s key ≡ ok (under (fs.resolve dir) (key_parts key))
  unfolding key_to_path
  path_lem key dir down e = ground arith

  -- Whatever the key is, a path that it is given lies in the directory of the store.
  pub key_to_path-IsBelow :
      (key : String) (p : PathParts)
      → key_to_path fs s key ≡ ok p
      → (dir : String) × (base_dir s ≡ ok dir) × IsBelow (fs.resolve dir) p
  key_to_path-IsBelow key p h = elim (Bool-cases (contains ".." (key_parts key))) [
    | inl up ↦ ground (arith, up_lem key up)
    | inr down ↦ elim (Outcome-cases (base_dir s)) [
      | inr (x, e) ↦ ground (arith, closed_lem key x down e)
      | inl (dir, e) ↦ (
        dir,
        e,
        subst (IsBelow (fs.resolve dir)) (ok_inj (sym (path_lem key dir down e) ∙ h))
            (under-IsBelow (fs.resolve dir) (key_parts key) (fs.resolve dir) down ([], refl, tt)),
      )
    ]
  ]
