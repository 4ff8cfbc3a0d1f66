-- ===== src/V5/Reader/Files.antt =====
-- Blocks of one size in a file: `pread` at a block's place gives the block.
use mathlib.Core.List.{flatten}
use mcfreeze.Base.{ℕ, zero, suc, ◌+◌, ◌*◌, ◌≤◌, ◌≡◌, sym, ap, ◌∙◌, List, [], ◌∷◌, ◌++◌}
use mcfreeze.Base.{Bytes, All, some, length, get_elem?, slice}
use mcfreeze.Base.{arith, length-append, slice-middle, subst, append_assoc}
use mcfreeze.Data.{pread, pread-ok}
use mcfreeze.Error.{ok}

length-flatten :
    (n : ℕ) (blocks : List Bytes)
    → All (λ b. length b ≡ n) blocks
    → length (flatten blocks) ≡ length blocks * n
unfolding flatten
length-flatten n [] h = omega arith
length-flatten n (b ∷ blocks) h =
    omega (arith, length-append b (flatten blocks), length-flatten n blocks h.1, h.0)

-- Where a block stands between those before and those after it.
split_at :
    (n i : ℕ) (blocks : List Bytes) (b : Bytes)
    → All (λ x. length x ≡ n) blocks
    → get_elem? blocks i ≡ some b
    → (pre post : Bytes) × (flatten blocks ≡ pre ++ (b ++ post))
      × (length pre ≡ i * n)
      × (length b ≡ n)
unfolding flatten
split_at n i [] b h e = cc
split_at n zero (x ∷ blocks) b h e =
    let same : x ≡ b = cc in
    (
      [],
      flatten blocks,
      ap (λ z. z ++ flatten blocks) same,
      omega arith,
      subst (λ z. length z ≡ n) same h.0,
    )
split_at n (suc i) (x ∷ blocks) b h e =
    let (pre, post, eq, before, size) = split_at n i blocks b h.1 e in
    (
      x ++ pre,
      post,
      ap (λ z. x ++ z) eq ∙ sym (append_assoc x pre (b ++ post)),
      omega (arith, length-append x pre, h.0),
      size,
    )

pub pread-flatten :
    (n i : ℕ) (blocks : List Bytes) (b : Bytes)
    → All (λ x. length x ≡ n) blocks
    → get_elem? blocks i ≡ some b
    → pread (flatten blocks) (i * n) n ≡ ok b
pread-flatten n i blocks b h e =
    let (pre, post, eq, before, size) = split_at n i blocks b h e in
    let whole : i * n + n ≤ length (flatten blocks) =
      omega (arith, ap length eq, length-append pre (b ++ post), length-append b post) in
    pread-ok (flatten blocks) (i * n) n whole
    ∙ ap ok (
        ap (slice (i * n) (i * n + n)) eq
        ∙ slice-middle (i * n) (i * n + n) pre b post (sym before) (omega arith))
