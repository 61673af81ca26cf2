-- ===== src/Base/Sizes.antt =====
-- The number of characters of a text made of two.
use package.text.Mathlib.TextLemmas.{nil-append, cons-append}
use Prim.Native.Nat.{◌+◌}
use Prim.Native.String.{String, ◌++◌ as ◌<>◌}
use mathlib.Core.Path.{◌≡◌}
use native.Mathlib.Omega.{arith}
use second_capture.Base.Lines.{size}

pub size-append : (s t : String) → size (s <> t) ≡ size s + size t
unfolding size
size-append String.[] t = rw (nil-append t) (omega arith)
size-append (String.◌∷◌ c s) t = rw (cons-append c s t) (omega (arith, size-append s t))
