-- ===== src/Base/Prefixes.antt =====
-- The stripped lower case text of a text that begins with a prefix without spaces.
use Prim.Native.Char.{Char}
use Prim.Native.String.{String, [], ◌∷◌, ◌++◌}
use mathlib.Core.Path.{◌≡◌, refl, sym, ap, ◌∙◌}
use mathlib.Core.Bool.{Bool, true, false, not, ◌&&◌}
use native.Mathlib.Omega.{arith}
use text.Mathlib.Text.{starts_with}
use text.Mathlib.TextEquality.{starts_with_iff}
use text.Mathlib.TextLemmas.{nil-append, cons-append}
use second_capture.Base.Text.{is_space, lstrip, rstrip, strip, lower, lower_char, norm}

-- No character is a space.
unfoldable pub is_solid : String → Bool
is_solid [] = true
is_solid (c ∷ s) = let rest = is_solid s in not (is_space c) && rest

lower-append : (s t : String) → lower (s ++ t) ≡ lower s ++ lower t
unfolding lower
lower-append [] t = rw (nil-append t, nil-append (lower t)) refl
lower-append (c ∷ s) t =
    rw (cons-append c s t, cons-append (lower_char c) (lower s) (lower t))
      (ap (λ u. lower_char c ∷ u) (lower-append s t))

rstrip_solid : (c : Char) (s : String) → is_space c ≡ false → rstrip (c ∷ s) ≡ c ∷ rstrip s
unfolding rstrip
rstrip_solid c s h = ground arith

solid_head : (c : Char) (s : String) → is_solid (c ∷ s) ≡ true → is_space c ≡ false
unfolding is_solid
solid_head c s h = ground arith

solid_rest : (c : Char) (s : String) → is_solid (c ∷ s) ≡ true → is_solid s ≡ true
unfolding is_solid
solid_rest c s h = ground arith

rstrip-append : (s t : String) → is_solid s ≡ true → rstrip (s ++ t) ≡ s ++ rstrip t
rstrip-append [] t h = rw (nil-append t, nil-append (rstrip t)) refl
rstrip-append (c ∷ s) t h =
    ap rstrip (cons-append c s t)
    ∙ rstrip_solid c (s ++ t) (solid_head c s h)
    ∙ ap (λ u. c ∷ u) (rstrip-append s t (solid_rest c s h))
    ∙ sym (cons-append c s (rstrip t))

lstrip_solid : (c : Char) (s : String) → is_space c ≡ false → lstrip (c ∷ s) ≡ c ∷ s
unfolding lstrip
lstrip_solid c s h = ground arith

strip-append :
    (c : Char) (s t : String) → is_solid (c ∷ s) ≡ true → strip ((c ∷ s) ++ t) ≡ (c ∷ s) ++ rstrip t
unfolding strip
strip-append c s t h =
    ap (λ u. rstrip (lstrip u)) (cons-append c s t)
    ∙ ap rstrip (lstrip_solid c (s ++ t) (solid_head c s h) ∙ sym (cons-append c s t))
    ∙ rstrip-append (c ∷ s) t h

-- A solid prefix stays in front, in lower case.
pub norm_prefix :
    (c : Char) (s t : String)
    → is_solid (c ∷ s) ≡ true
    → starts_with (norm ((c ∷ s) ++ t)) (lower (c ∷ s)) ≡ true
unfolding norm
norm_prefix c s t h =
    (starts_with_iff (lower (strip ((c ∷ s) ++ t))) (lower (c ∷ s))).1
      (lower (rstrip t), sym (ap lower (strip-append c s t h) ∙ lower-append (c ∷ s) (rstrip t)))
