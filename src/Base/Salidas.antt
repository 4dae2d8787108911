-- ===== src/Base/Salidas.antt =====
-- What holds of the result of a step that may have none.
use mathlib.Core.Path.{◌≡◌, refl, subst}
use mathlib.Core.Bool.{Bool, true, false}
use mathlib.Core.Option.{Option, none, some}
use tp_sistemas_operativos_u.Base.Tests.{if◌then◌else◌, ◌>>=◌}

-- What holds of a result, if there is one.
unfoldable pub SiSale {ℓ} : {A : Type ℓ} → (A → Type 0) → Option A → Type 0
SiSale P none = Unit
SiSale P (some x) = P x

pub SiSale-some {ℓ} :
    {A : Type ℓ} (P : A → Type 0) (o : Option A) (x : A) → o ≡ some x → SiSale P o → P x
SiSale-some P o x e h = unfold SiSale in subst (SiSale P) e h

-- The same, where what is known of the value is that it came out.
pub SiSale->>=_eq :
    {A : Type 0} {B : Type 0} (P : B → Type 0) (o : Option A) (f : A → Option B)
    → ((a : A) → o ≡ some a → SiSale P (f a))
    → SiSale P (o >>= f)
unfolding SiSale
SiSale->>=_eq P none f g = tt
SiSale->>=_eq P (some a) f g = g a refl

pub SiSale->>= :
    {A : Type 0} {B : Type 0} (Q : A → Type 0) (P : B → Type 0) (o : Option A) (f : A → Option B)
    → SiSale Q o
    → ((a : A) → Q a → SiSale P (f a))
    → SiSale P (o >>= f)
unfolding SiSale
SiSale->>= Q P none f h g = tt
SiSale->>= Q P (some a) f h g = g a h

pub sale : {A : Type 0} (P : A → Type 0) (x : A) → P x → SiSale P (some x)
sale P x h = unfold SiSale in h

pub siempre : {A : Type 0} (o : Option A) → SiSale (λ x. Unit) o
unfolding SiSale
siempre none = tt
siempre (some x) = tt

-- The first branch may use the test.
pub SiSale-si :
    {A : Type 0} (P : A → Type 0) (b : Bool) (x y : Option A)
    → (b ≡ true → SiSale P x)
    → SiSale P y
    → SiSale P (if b then x else y)
SiSale-si P true x y h g = h refl
SiSale-si P false x y h g = g

pub SiSale-if :
    {A : Type 0} (P : A → Type 0) (b : Bool) (x y : Option A)
    → SiSale P x
    → SiSale P y
    → SiSale P (if b then x else y)
SiSale-if P true x y h g = h
SiSale-if P false x y h g = g

pub no_sale : {A : Type 0} (P : A → Type 0) → SiSale P none
no_sale P = unfold SiSale in tt
