-- ===== src/Base/Lists.antt =====
-- Lists measured and indexed by native numbers, under the library's names, and sums over them.
use Prim.Native.Nat.{ℕ, zero, suc, ◌+◌, ◌-◌, ◌≤◌, ◌<◌, min}
use mathlib.Core.Path.{◌≡◌, refl, ap, subst}
use mathlib.Core.Logic.{◌≢◌, ◌⊎◌, inl, inr}
use mathlib.Core.Bool.{Bool, true, false}
use cpp_tiny_lab.Base.Tests.{Bool-cases, ◌>>=◌}
use mathlib.Core.List.{List, [], ◌∷◌, ◌++◌, map}
use mathlib.Core.Option.{Option, none, some, some-injective}
use native.Mathlib.Omega.{arith}

module _ {ℓ} {A : Type ℓ} where
  abbrev pub length : List A → ℕ
  length [] = 0
  length (x ∷ xs) = suc (length xs)

  abbrev pub get_elem? : List A → ℕ → Option A
  get_elem? [] i = none
  get_elem? (x ∷ xs) zero = some x
  get_elem? (x ∷ xs) (suc i) = get_elem? xs i

  -- A write out of bounds changes nothing.
  abbrev pub set : List A → ℕ → A → List A
  set [] i v = []
  set (x ∷ xs) zero v = v ∷ xs
  set (x ∷ xs) (suc i) v = x ∷ set xs i v

  abbrev pub take : ℕ → List A → List A
  take zero xs = []
  take (suc n) [] = []
  take (suc n) (x ∷ xs) = x ∷ take n xs

  abbrev pub drop : ℕ → List A → List A
  drop zero xs = xs
  drop (suc n) [] = []
  drop (suc n) (x ∷ xs) = drop n xs

  abbrev pub replicate : ℕ → A → List A
  replicate zero a = []
  replicate (suc n) a = a ∷ replicate n a

  abbrev pub All {κ} : (A → Type κ) → List A → Type κ
  All P [] = Unit
  All P (x ∷ xs) = P x × All P xs

  -- The sum of a weight over a list.
  abbrev pub sum_by : (A → ℕ) → List A → ℕ
  sum_by f [] = 0
  sum_by f (x ∷ xs) = f x + sum_by f xs

module _ {ℓ} {A : Type ℓ} where
  pub length-append : (xs ys : List A) → length (xs ++ ys) ≡ length xs + length ys
  length-append [] ys = omega arith
  length-append (x ∷ xs) ys = omega (arith, length-append xs ys)

  pub length-set : (xs : List A) (i : ℕ) (v : A) → length (set xs i v) ≡ length xs
  length-set [] i v = refl
  length-set (x ∷ xs) zero v = refl
  length-set (x ∷ xs) (suc i) v = ap suc (length-set xs i v)

  pub length-replicate : (n : ℕ) (a : A) → length (replicate n a) ≡ n
  length-replicate zero a = refl
  length-replicate (suc n) a = ap suc (length-replicate n a)

  pub take-append-drop : (n : ℕ) (xs : List A) → take n xs ++ drop n xs ≡ xs
  take-append-drop zero xs = refl
  take-append-drop (suc n) [] = refl
  take-append-drop (suc n) (x ∷ xs) = ap (◌∷◌ x) (take-append-drop n xs)

  pub length-drop : (n : ℕ) (xs : List A) → length (drop n xs) ≡ length xs - n
  length-drop zero xs = omega arith
  length-drop (suc n) [] = omega arith
  length-drop (suc n) (x ∷ xs) = omega (arith, length-drop n xs)

  pub length-take : (n : ℕ) (xs : List A) → length (take n xs) ≡ min n (length xs)
  length-take zero xs = omega arith
  length-take (suc n) [] = omega arith
  length-take (suc n) (x ∷ xs) = omega (arith, length-take n xs)

  pub All-append {κ} : (P : A → Type κ) (xs ys : List A) → All P xs → All P ys → All P (xs ++ ys)
  All-append P [] ys hx hy = hy
  All-append P (x ∷ xs) ys hx hy = (hx.0, All-append P xs ys hx.1 hy)

  pub All-get_elem? {κ} :
      (P : A → Type κ) (xs : List A) (i : ℕ) {x : A} → All P xs → get_elem? xs i ≡ some x → P x
  All-get_elem? P [] i h e = cc
  All-get_elem? P (x ∷ xs) zero h e = subst P (some-injective _ _ e) h.0
  All-get_elem? P (x ∷ xs) (suc i) h e = All-get_elem? P xs i h.1 e

  pub All-set {κ} :
      (P : A → Type κ) (xs : List A) (i : ℕ) (v : A) → All P xs → P v → All P (set xs i v)
  All-set P [] i v h hv = tt
  All-set P (x ∷ xs) zero v h hv = (hv, h.1)
  All-set P (x ∷ xs) (suc i) v h hv = (h.0, All-set P xs i v h.1 hv)

  pub sum_by-append : (f : A → ℕ) (xs ys : List A) → sum_by f (xs ++ ys) ≡ sum_by f xs + sum_by f ys
  sum_by-append f [] ys = omega arith
  sum_by-append f (x ∷ xs) ys = omega (arith, sum_by-append f xs ys)

  -- Replacing the element at `i` exchanges its weight.
  pub sum_by-set :
      (f : A → ℕ) (xs : List A) (i : ℕ) (p q : A)
      → get_elem? xs i ≡ some p
      → sum_by f (set xs i q) + f p ≡ sum_by f xs + f q
  sum_by-set f [] i p q h = cc
  sum_by-set f (x ∷ xs) zero p q h = omega (arith, ap f (some-injective _ _ h))
  sum_by-set f (x ∷ xs) (suc i) p q h = omega (arith, sum_by-set f xs i p q h)

  pub sum_by_mono :
      (f g : A → ℕ) → ((a : A) → f a ≤ g a) → (xs : List A) → sum_by f xs ≤ sum_by g xs
  sum_by_mono f g h [] = omega arith
  sum_by_mono f g h (x ∷ xs) = omega (arith, h x, sum_by_mono f g h xs)

  -- A pointwise smaller weight stays smaller by the difference at any one element.
  pub sum_by-le :
      (f g : A → ℕ)
      → ((a : A) → f a ≤ g a)
      → (xs : List A) (i : ℕ) (p : A) → get_elem? xs i ≡ some p
      → sum_by f xs + g p ≤ sum_by g xs + f p
  sum_by-le f g h [] i p e = cc
  sum_by-le f g h (x ∷ xs) zero p e =
      omega (arith, ap f (some-injective _ _ e), ap g (some-injective _ _ e), sum_by_mono f g h xs)
  sum_by-le f g h (x ∷ xs) (suc i) p e = omega (arith, h x, sum_by-le f g h xs i p e)

  pub sum_by-replicate : (f : A → ℕ) (n : ℕ) (a : A) → f a ≡ 0 → sum_by f (replicate n a) ≡ 0
  sum_by-replicate f zero a h = refl
  sum_by-replicate f (suc n) a h = omega (arith, sum_by-replicate f n a h)

  pub sum_by-ge :
      (f : A → ℕ) (xs : List A) (i : ℕ) (p : A) → get_elem? xs i ≡ some p → f p ≤ sum_by f xs
  sum_by-ge f [] i p e = cc
  sum_by-ge f (x ∷ xs) zero p e = omega (arith, ap f (some-injective _ _ e))
  sum_by-ge f (x ∷ xs) (suc i) p e = omega (arith, sum_by-ge f xs i p e)

  pub sum_by-le-length : (f : A → ℕ) → ((a : A) → f a ≤ 1) → (xs : List A) → sum_by f xs ≤ length xs
  sum_by-le-length f h [] = omega arith
  sum_by-le-length f h (x ∷ xs) = omega (arith, h x, sum_by-le-length f h xs)

  pub sum_by-two :
      (f : A → ℕ) (xs : List A) (i j : ℕ) (p q : A)
      → i ≢ j
      → get_elem? xs i ≡ some p
      → get_elem? xs j ≡ some q
      → f p + f q ≤ sum_by f xs
  sum_by-two f [] i j p q ne a b = cc
  sum_by-two f (x ∷ xs) zero zero p q ne a b = absurd (ne refl)
  sum_by-two f (x ∷ xs) zero (suc j) p q ne a b =
      omega (arith, ap f (some-injective _ _ a), sum_by-ge f xs j q b)
  sum_by-two f (x ∷ xs) (suc i) zero p q ne a b =
      omega (arith, ap f (some-injective _ _ b), sum_by-ge f xs i p a)
  sum_by-two f (x ∷ xs) (suc i) (suc j) p q ne a b =
      omega (arith, sum_by-two f xs i j p q (λ e. ne (ap suc e)) a b)

  pub sum_by-eq-zero :
      (f : A → ℕ) (xs : List A)
      → ((i : ℕ) (p : A) → get_elem? xs i ≡ some p → f p ≡ 0)
      → sum_by f xs ≡ 0
  sum_by-eq-zero f [] h = refl
  sum_by-eq-zero f (x ∷ xs) h =
      omega (arith, h 0 x refl, sum_by-eq-zero f xs (λ i p e. h (suc i) p e))

  fails_all :
      (test : A → Bool) (x : A) (xs : List A)
      → test x ≡ false
      → ((i : ℕ) (p : A) → get_elem? xs i ≡ some p → test p ≡ false)
      → (i : ℕ) (p : A) → get_elem? (x ∷ xs) i ≡ some p
      → test p ≡ false
  fails_all test x xs h later zero p e = cc
  fails_all test x xs h later (suc i) p e = later i p e

  -- Some element passes a test, or none does.
  pub find_index :
      (test : A → Bool) (xs : List A)
      → ((i : ℕ) × (p : A) × (get_elem? xs i ≡ some p) × (test p ≡ true))
        ⊎ ((i : ℕ) (p : A) → get_elem? xs i ≡ some p → test p ≡ false)
  find_index test [] = inr (λ i p e. cc)
  find_index test (x ∷ xs) = elim (find_index test xs) [
    | inl (i, p, e, t) ↦ inl (suc i, p, e, t)
    | inr later ↦ elim (Bool-cases (test x)) [
      | inl t ↦ inl (0, x, refl, t)
      | inr f ↦ inr (fails_all test x xs f later)
    ]
  ]

  pub first : (xs : List A) → 0 < length xs → (x : A) × (get_elem? xs 0 ≡ some x)
  first [] h = absurd (omega arith)
  first (x ∷ xs) h = (x, refl)

  pub length-eq-zero : (xs : List A) → length xs ≡ 0 → xs ≡ []
  length-eq-zero [] h = refl
  length-eq-zero (x ∷ xs) h = absurd (omega arith)

  pub get_elem?-append_right :
      (xs ys : List A) (k : ℕ) → get_elem? (xs ++ ys) (length xs + k) ≡ get_elem? ys k
  get_elem?-append_right [] ys k = ap (get_elem? ys) (omega arith)
  get_elem?-append_right (x ∷ xs) ys k =
      let e : suc (length xs) + k ≡ suc (length xs + k) = omega arith in
      rw e (get_elem?-append_right xs ys k)

  pub set-append_right :
      (xs : List A) (y : A) (ys : List A) (v : A) → set (xs ++ y ∷ ys) (length xs) v ≡ xs ++ v ∷ ys
  set-append_right [] y ys v = refl
  set-append_right (x ∷ xs) y ys v = ap (◌∷◌ x) (set-append_right xs y ys v)

-- A loop that reads each element of a list; there is no result where one of them cannot be read.
unfoldable pub read_all {ℓ κ} :
    {A : Type ℓ} {B : Type κ} → (A → Option B) → List A → Option (List B)
read_all f [] = some []
read_all f (x ∷ xs) = let rest = read_all f xs in f x >>= λ b. rest >>= λ bs. some (b ∷ bs)

pub read_all-map {ℓ κ μ} :
    {A : Type ℓ} {B : Type κ} {C : Type μ} (f : B → Option C) (print : A → B) (g : A → C)
    (P : A → Type 0)
    → ((a : A) → P a → f (print a) ≡ some (g a))
    → (xs : List A) → All P xs
    → read_all f (map print xs) ≡ some (map g xs)
unfolding read_all
read_all-map f print g P h [] a = refl
read_all-map f print g P h (x ∷ xs) a = rw (h x a.0, read_all-map f print g P h xs a.1) refl
