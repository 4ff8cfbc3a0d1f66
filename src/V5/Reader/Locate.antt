-- ===== src/V5/Reader/Locate.antt =====
-- Where the entries of a sorted run are: each stands in a group whose block is a candidate for it.
use mathlib.Core.List.{flatten}
use mcfreeze.Base.{ℕ, suc, ◌≤◌, ◌≡◌, ◌≢◌, refl, sym, ap, List, [], ◌∷◌}
use mcfreeze.Base.{◌++◌, map, All, Elem, Elem-append, IsSorted, some, get_elem?, subst}
use mcfreeze.Base.{inl, inr, arith}
use mcfreeze.V5.Fence.{fence_of}
use mcfreeze.V5.Fence.Candidates.{IsCandidate}
use mcfreeze.V5.Block.Pack.{Entry, group_fence, group_fences}

abbrev pub fps : List Entry → List ℕ
fps = map (λ e. e.fp)

abbrev AboveAll : ℕ → List Entry → Type 0
AboveAll x es = All (λ y. x ≤ y) (fps es)

fence_of-le : (x y : ℕ) → x ≤ y → fence_of x ≤ fence_of y
unfolding fence_of
fence_of-le x y h = omega arith

AboveAll-append :
    (x : ℕ) (es fs : List Entry) → AboveAll x (es ++ fs) → AboveAll x es × AboveAll x fs
AboveAll-append x [] fs h = (tt, h)
AboveAll-append x (e ∷ es) fs h = let (a, b) = AboveAll-append x es fs h.1 in ((h.0, a), b)

IsSorted-append :
    (es fs : List Entry)
    → IsSorted (fps (es ++ fs))
    → IsSorted (fps fs) × ((e : Entry) → Elem e es → AboveAll e.fp fs)
IsSorted-append [] fs s = (s, λ e h. absurd h)
IsSorted-append (x ∷ es) fs s =
    let (later, above) = IsSorted-append es fs s.1 in
    (
      later,
      λ e h. elim h [
        | inl same ↦
            subst (λ (y : Entry). AboveAll y.fp fs) (sym same) (AboveAll-append x.fp es fs s.0).1
        | inr there ↦ above e there
      ],
    )

IsSorted-left : (es fs : List Entry) → IsSorted (fps (es ++ fs)) → IsSorted (fps es)
IsSorted-left [] fs s = tt
IsSorted-left (x ∷ es) fs s = ((AboveAll-append x.fp es fs s.0).0, IsSorted-left es fs s.1)

AboveAll-Elem : (n : ℕ) (es : List Entry) (e : Entry) → AboveAll n es → Elem e es → n ≤ e.fp
AboveAll-Elem n [] e a h = absurd h
AboveAll-Elem n (y ∷ ys) e a (inl same) = omega (arith, a.0, ap (λ (z : Entry). z.fp) same)
AboveAll-Elem n (y ∷ ys) e a (inr there) = AboveAll-Elem n ys e a.1 there

head-le : (x e : Entry) (es : List Entry) → IsSorted (fps (x ∷ es)) → Elem e (x ∷ es) → x.fp ≤ e.fp
head-le x e es s (inl same) = omega (arith, ap (λ (y : Entry). y.fp) same)
head-le x e es s (inr there) = AboveAll-Elem x.fp es e s.0 there

above-fences :
    (x : ℕ) (gs : List (List Entry))
    → AboveAll x (flatten gs)
    → All (λ f. fence_of x ≤ f) (group_fences gs)
unfolding flatten group_fences group_fence
above-fences x [] h = tt
above-fences x ([] ∷ gs) h = above-fences x gs h
above-fences x ((e ∷ es) ∷ gs) h =
    (fence_of-le x e.fp h.0, above-fences x gs (AboveAll-append x es (flatten gs) h.1).1)

pub group_fences-IsSorted :
    (gs : List (List Entry)) → IsSorted (fps (flatten gs)) → IsSorted (group_fences gs)
unfolding flatten group_fences group_fence
group_fences-IsSorted [] s = tt
group_fences-IsSorted ([] ∷ gs) s = group_fences-IsSorted gs s
group_fences-IsSorted ((e ∷ es) ∷ gs) s =
    let (later, above) = IsSorted-append (e ∷ es) (flatten gs) s in
    (above-fences e.fp gs (above e (inl refl)), group_fences-IsSorted gs later)

first_above : (n : ℕ) (fs : List ℕ) (g : ℕ) → All (λ f. n ≤ f) fs → get_elem? fs 0 ≡ some g → n ≤ g
first_above n [] g a h = cc
first_above n (f ∷ fs) g a h = let same : f ≡ g = cc in subst (λ (y : ℕ). n ≤ y) same a.0

-- The group of an entry of a sorted run of groups, none empty, is a candidate for the entry.
pub locate :
    (gs : List (List Entry)) (e : Entry)
    → All (λ g. g ≢ []) gs
    → IsSorted (fps (flatten gs))
    → Elem e (flatten gs)
    → (i : ℕ) × (g : List Entry) × (get_elem? gs i ≡ some g)
      × Elem e g
      × IsCandidate (group_fences gs) (fence_of e.fp) i
unfolding flatten group_fences group_fence
locate [] e ne s h = absurd h
locate ([] ∷ gs) e ne s h = absurd (ne.0 refl)
locate ((x ∷ es) ∷ gs) e ne s h =
    let (later, above) = IsSorted-append (x ∷ es) (flatten gs) s in
    elim ((Elem-append e (x ∷ es) (flatten gs)).0 h) [
      | inl here ↦
          let le =
            fence_of-le x.fp e.fp (head-le x e (es) (IsSorted-left (x ∷ es) (flatten gs) s) here) in
          (
            0,
            x ∷ es,
            refl,
            here,
            (
              fence_of x.fp,
              refl,
              le,
              λ f place.
                  first_above (fence_of e.fp) (group_fences gs) f
                    (above-fences e.fp gs (above e here)) place,
            ),
          )
      | inr there ↦
          let (i, g, eg, mem, candidate) = locate gs e ne.1 later there in
          let (f, place, le, next) = candidate in (suc i, g, eg, mem, (f, place, le, next))
    ]
