-- ===== src/ChatServer/Service/Results.antt =====
-- Properties of the result of a handler, by the way the handler is put together.
use cpp_tiny_lab.Base.{◌>>=◌, ◌≡◌, refl, Bool, true, false, Option, none, some, if◌then◌else◌}

-- Where there is a result, it has the property.
unfoldable pub IfSome {ℓ} : {A : Type ℓ} → (A → Type 0) → Option A → Type 0
IfSome P none = Unit
IfSome P (some a) = P a

pub IfSome-bind {ℓ κ} :
    {A : Type ℓ} {B : Type κ} (P : B → Type 0) (o : Option A) (f : A → Option B)
    → ((a : A) → IfSome P (f a))
    → IfSome P (o >>= f)
unfolding IfSome
IfSome-bind P none f h = tt
IfSome-bind P (some a) f h = h a

pub IfSome-bind_eq {ℓ κ} :
    {A : Type ℓ} {B : Type κ} (P : B → Type 0) (o : Option A) (f : A → Option B)
    → ((a : A) → o ≡ some a → IfSome P (f a))
    → IfSome P (o >>= f)
unfolding IfSome
IfSome-bind_eq P none f h = tt
IfSome-bind_eq P (some a) f h = h a refl

pub if-both {ℓ} :
    {A : Type ℓ} (P : A → Type 0) (b : Bool) (x y : A) → P x → P y → P (if b then x else y)
if-both P true x y h k = h
if-both P false x y h k = k

pub IfSome-if {ℓ} :
    {A : Type ℓ} (P : A → Type 0) (b : Bool) (x y : Option A)
    → IfSome P x
    → IfSome P y
    → IfSome P (if b then x else y)
IfSome-if P b x y h k = if-both (IfSome P) b x y h k

pub IfSome-split {ℓ} :
    {A : Type ℓ} (P : A → Type 0) (b : Bool) (x y : Option A)
    → (b ≡ true → IfSome P x)
    → IfSome P y
    → IfSome P (if b then x else y)
IfSome-split P true x y h k = h refl
IfSome-split P false x y h k = k
