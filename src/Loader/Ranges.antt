-- ===== src/Loader/Ranges.antt =====
-- The values of a function at consecutive numbers, one for each partition.
use mcfreeze.Base.{ℕ, zero, suc, ◌+◌, ◌<◌, ◌≤◌, ◌≡◌, ◌≢◌, refl, sym, ap, ◌∙◌, List, [], ◌∷◌, map}
use mcfreeze.Base.{arith, replicate}
use mcfreeze.V5.Builder.Sizes.{sum}

-- The values of functions from `s` on.
unfoldable pub list_from : {A : Type 0} → (ℕ → A) → ℕ → ℕ → List A
list_from f s zero = []
list_from f s (suc n) = f s ∷ list_from f (suc s) n

pub list_from-eq :
    {A : Type 0} (f g : ℕ → A) (s n : ℕ)
    → ((i : ℕ) → s ≤ i → f i ≡ g i)
    → list_from f s n ≡ list_from g s n
unfolding list_from
list_from-eq f g s zero h = refl
list_from-eq f g s (suc n) h =
    ap (λ z. z ∷ list_from f (suc s) n) (h s (omega arith))
    ∙ ap (λ z. g s ∷ z) (list_from-eq f g (suc s) n (λ i le. h i (omega arith)))

pub list_from-replicate : {A : Type 0} (a : A) (s n : ℕ) → list_from (λ _. a) s n ≡ replicate n a
unfolding list_from
list_from-replicate a s zero = refl
list_from-replicate a s (suc n) = ap (λ z. a ∷ z) (list_from-replicate a (suc s) n)

pub map-list_from :
    {A B : Type 0} (g : A → B) (f : ℕ → A) (s n : ℕ)
    → map g (list_from f s n) ≡ list_from (λ i. g (f i)) s n
unfolding list_from
map-list_from g f s zero = refl
map-list_from g f s (suc n) = ap (λ z. g (f s) ∷ z) (map-list_from g f (suc s) n)

pub sum-list_from-one :
    (idx s n : ℕ) (f g : ℕ → ℕ)
    → idx < n
    → g (s + idx) ≡ suc (f (s + idx))
    → ((i : ℕ) → i ≢ s + idx → g i ≡ f i)
    → sum (list_from g s n) ≡ suc (sum (list_from f s n))
unfolding list_from sum
sum-list_from-one idx s zero f g lt more same = absurd (omega arith)
sum-list_from-one zero s (suc n) f g lt more same =
    let here : s + 0 ≡ s = omega arith in
    let head : g s ≡ suc (f s) = sym (ap g here) ∙ more ∙ ap (λ z. suc (f z)) here in
    omega (
      arith,
      head,
      ap sum (list_from-eq g f (suc s) n (λ i le. same i (λ e. absurd (omega (arith, e, le))))),
    )
sum-list_from-one (suc idx) s (suc n) f g lt more same =
    let there : s + suc idx ≡ suc s + idx = omega arith in
    omega (
      arith,
      same s (λ e. absurd (omega (arith, e))),
      sum-list_from-one idx (suc s) n f g (omega arith)
          (sym (ap g there) ∙ more ∙ ap (λ z. suc (f z)) there)
          (λ i other. same i (λ e. other (e ∙ there))),
    )

pub sum-list_from-zero : (s n : ℕ) → sum (list_from (λ _. 0) s n) ≡ 0
unfolding list_from sum
sum-list_from-zero s zero = refl
sum-list_from-zero s (suc n) = omega (arith, sum-list_from-zero (suc s) n)
