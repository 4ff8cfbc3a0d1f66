-- ===== src/Base/Texts.antt =====
-- The equality test of texts.
use Prim.Native.Nat.{Ordering}
use Prim.Native.String
use Prim.Native.String.{String}
use mathlib.Core.Path.{◌≡◌, refl, sym, ap, ◌∙◌}
use mathlib.Core.Logic.{◌↔◌}
use mathlib.Core.Bool.{Bool, true, false}
use text.Mathlib.TextEquality.{path_by_compare}
use text.Mathlib.TextPositions.{compare_refl}

abbrev ordering_is_eq : Ordering → Bool
ordering_is_eq Ordering.eq = true
ordering_is_eq _ = false

unfoldable pub string_eq : String → String → Bool
string_eq a b = ordering_is_eq (String.compare a b)

is_eq_lem : (o : Ordering) → ordering_is_eq o ≡ true → o ≡ Ordering.eq
is_eq_lem Ordering.lt h = cc
is_eq_lem Ordering.eq h = refl
is_eq_lem Ordering.gt h = cc

pub string_eq_iff : (a b : String) → (string_eq a b ≡ true) ↔ (a ≡ b)
unfolding string_eq
string_eq_iff a b = (
  λ h. path_by_compare a b (is_eq_lem (String.compare a b) h),
  λ e. ap (λ s. ordering_is_eq (String.compare a s)) (sym e) ∙ ap ordering_is_eq (compare_refl a),
)
