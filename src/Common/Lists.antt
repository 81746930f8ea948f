-- ===== src/Common/Lists.antt =====
-- C arrays as lists with native indices.
use Prim.Native.Nat.{ℕ, zero, suc, ◌+◌, ◌<◌, ◌≤◌}
use mathlib.Core.Path.{◌≡◌, refl, ap, ap₂, ◌∙◌}
use mathlib.Core.Logic.{◌≢◌, ◌⊎◌, inl, inr}
use mathlib.Core.List.{List, [], ◌∷◌, ◌++◌}
use native.Mathlib.Omega.{arith}

module _ {ℓ} {A : Type ℓ} where
  abbrev pub length : List A → ℕ
  length [] = 0
  length (x ∷ xs) = suc (length xs)

  -- An index past the end reads the default.
  abbrev pub get_or : List A → ℕ → A → A
  get_or [] i d = d
  get_or (x ∷ xs) zero d = x
  get_or (x ∷ xs) (suc i) d = get_or xs i d

  -- A write out of bounds changes nothing.
  abbrev pub set : List A → ℕ → A → List A
  set [] i v = []
  set (x ∷ xs) zero v = v ∷ xs
  set (x ∷ xs) (suc i) v = x ∷ set xs i v

  unfoldable pub take : ℕ → List A → List A
  take zero xs = []
  take (suc n) [] = []
  take (suc n) (x ∷ xs) = x ∷ take n xs

  unfoldable pub drop : ℕ → List A → List A
  drop zero xs = xs
  drop (suc n) [] = []
  drop (suc n) (x ∷ xs) = drop n xs

  unfoldable pub replicate : ℕ → A → List A
  replicate zero a = []
  replicate (suc n) a = a ∷ replicate n a

module _ {ℓ} {A : Type ℓ} where
  pub length-set : (xs : List A) (i : ℕ) (v : A) → length (set xs i v) ≡ length xs
  length-set [] i v = refl
  length-set (x ∷ xs) zero v = refl
  length-set (x ∷ xs) (suc i) v = ap suc (length-set xs i v)

  pub get_or-set_self :
      (xs : List A) (i : ℕ) (v d : A) → i < length xs → get_or (set xs i v) i d ≡ v
  get_or-set_self [] i v d h = absurd (omega arith)
  get_or-set_self (x ∷ xs) zero v d h = refl
  get_or-set_self (x ∷ xs) (suc i) v d h = get_or-set_self xs i v d (omega arith)

  pub get_or-set_ne :
      (xs : List A) (i j : ℕ) (v d : A) → i ≢ j → get_or (set xs i v) j d ≡ get_or xs j d
  get_or-set_ne [] i j v d h = refl
  get_or-set_ne (x ∷ xs) zero zero v d h = absurd (h refl)
  get_or-set_ne (x ∷ xs) zero (suc j) v d h = refl
  get_or-set_ne (x ∷ xs) (suc i) zero v d h = refl
  get_or-set_ne (x ∷ xs) (suc i) (suc j) v d h = get_or-set_ne xs i j v d (λ e. h (ap suc e))

  pub set-set : (xs : List A) (i : ℕ) (u v : A) → set (set xs i u) i v ≡ set xs i v
  set-set [] i u v = refl
  set-set (x ∷ xs) zero u v = refl
  set-set (x ∷ xs) (suc i) u v = ap (λ r. x ∷ r) (set-set xs i u v)

  pub length-append : (xs ys : List A) → length (xs ++ ys) ≡ length xs + length ys
  length-append [] ys = omega arith
  length-append (x ∷ xs) ys = omega (arith, length-append xs ys)

  pub length-replicate : (n : ℕ) (a : A) → length (replicate n a) ≡ n
  unfolding replicate
  length-replicate zero a = refl
  length-replicate (suc n) a = ap suc (length-replicate n a)

-- A predicate on every element, by recursion.
abbrev pub All {ℓ κ} : {A : Type ℓ} → (A → Type κ) → List A → Type κ
All P [] = Unit
All P (x ∷ xs) = P x × All P xs

module _ {ℓ κ} {A : Type ℓ} (P : A → Type κ) where
  pub All-set : (xs : List A) (i : ℕ) (v : A) → All P xs → P v → All P (set xs i v)
  All-set [] i v h p = tt
  All-set (x ∷ xs) zero v h p = (p, h.1)
  All-set (x ∷ xs) (suc i) v h p = (h.0, All-set xs i v h.1 p)

  pub All-get_or : (xs : List A) (i : ℕ) (d : A) → All P xs → P d → P (get_or xs i d)
  All-get_or [] i d h p = p
  All-get_or (x ∷ xs) zero d h p = h.0
  All-get_or (x ∷ xs) (suc i) d h p = All-get_or xs i d h.1 p

  pub All-replicate : (n : ℕ) (a : A) → P a → All P (replicate n a)
  unfolding replicate
  All-replicate zero a p = tt
  All-replicate (suc n) a p = (p, All-replicate n a p)

module _ {ℓ} {A : Type ℓ} where
  -- A write below `n` does not show from `n` on.
  pub drop-set : (n : ℕ) (xs : List A) (i : ℕ) (v : A) → i < n → drop n (set xs i v) ≡ drop n xs
  unfolding drop
  drop-set zero xs i v h = absurd (omega arith)
  drop-set (suc n) [] i v h = refl
  drop-set (suc n) (x ∷ xs) zero v h = refl
  drop-set (suc n) (x ∷ xs) (suc i) v h = drop-set n xs i v (omega arith)

  -- `memcpy (dst + to) (src + from)` of `n` elements, lowest first.
  unfoldable pub memcpy : ℕ → List A → ℕ → List A → ℕ → A → List A
  memcpy zero dst to src from d = dst
  memcpy (suc n) dst to src from d =
      memcpy n (set dst to (get_or src from d)) (to + 1) src (from + 1) d

  pub length-memcpy :
      (n : ℕ) (dst : List A) (to : ℕ) (src : List A) (from : ℕ) (d : A)
      → length (memcpy n dst to src from d) ≡ length dst
  unfolding memcpy
  length-memcpy zero dst to src from d = refl
  length-memcpy (suc n) dst to src from d =
      length-memcpy n (set dst to (get_or src from d)) (to + 1) src (from + 1) d
      ∙ length-set dst to (get_or src from d)

  -- Outside the copied range the destination keeps its elements.
  pub get_or-memcpy_out :
      (n : ℕ) (dst : List A) (to : ℕ) (src : List A) (from : ℕ) (d : A) (i : ℕ)
      → (i < to) ⊎ (to + n ≤ i)
      → get_or (memcpy n dst to src from d) i d ≡ get_or dst i d
  unfolding memcpy
  get_or-memcpy_out zero dst to src from d i h = refl
  get_or-memcpy_out (suc n) dst to src from d i h =
      get_or-memcpy_out n (set dst to (get_or src from d)) (to + 1) src (from + 1) d i outside
      ∙ get_or-set_ne dst to i (get_or src from d) d (λ e. omega (arith, h, e))
    where
      outside : (i < to + 1) ⊎ (to + 1 + n ≤ i)
      outside = elim h [ inl l ↦ inl (omega arith) | inr r ↦ inr (omega arith) ]

  -- Inside it, those of the source.
  pub get_or-memcpy_in :
      (n : ℕ) (dst : List A) (to : ℕ) (src : List A) (from : ℕ) (d : A) (j : ℕ)
      → j < n
      → to + n ≤ length dst
      → get_or (memcpy n dst to src from d) (to + j) d ≡ get_or src (from + j) d
  unfolding memcpy
  get_or-memcpy_in zero dst to src from d j h l = absurd (omega arith)
  get_or-memcpy_in (suc n) dst to src from d zero h l = ground (
    arith,
    get_or-memcpy_out n (set dst to (get_or src from d)) (to + 1) src (from + 1) d (to + 0)
        (inl (omega arith)),
    get_or-set_self dst to (get_or src from d) d (omega arith),
  )
  get_or-memcpy_in (suc n) dst to src from d (suc j) h l = ground (
    arith,
    get_or-memcpy_in n (set dst to (get_or src from d)) (to + 1) src (from + 1) d j (omega arith)
        (omega (arith, length-set dst to (get_or src from d))),
  )

  -- Lists of one length with the same elements are equal.
  pub list_ext :
      (xs ys : List A) (d : A)
      → length xs ≡ length ys
      → ((i : ℕ) → i < length xs → get_or xs i d ≡ get_or ys i d)
      → xs ≡ ys
  list_ext [] [] d l h = refl
  list_ext [] (y ∷ ys) d l h = absurd (omega arith)
  list_ext (x ∷ xs) [] d l h = absurd (omega arith)
  list_ext (x ∷ xs) (y ∷ ys) d l h =
      ap₂ (λ a rest. a ∷ rest) (h 0 (omega arith))
        (list_ext xs ys d (omega arith) (λ i p. h (suc i) (omega arith)))
