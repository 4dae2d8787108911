-- ===== src/Kernel/Sistema/Sumas.antt =====
-- Sums over a list, and what the operations on lists do to them.
use tp_sistemas_operativos_u.Base.{
  ℕ, ◌+◌, ◌≡◌, refl, ap, ◌∙◌, ◌==◌, Bool, if◌then◌else◌, none, some, List, [], ◌∷◌, ◌++◌, length,
  find, erase_first, insert_at, arith, Bool-cases, some_inj, inl, inr,
}
use mathlib.Core.List.{Perm, Permᴰ}
use mathlib.Core.Logic.{∥∥₁_elim}
use tp_sistemas_operativos_u.Kernel.Planificador.{cambiar_primero}

-- 1 for the same address.
unfoldable pub uno : ℕ → ℕ → ℕ
uno p q = if p == q then 1 else 0

module _ {A : Type 0} where
  unfoldable pub suma : (A → ℕ) → List A → ℕ
  suma w [] = 0
  suma w (x ∷ xs) = w x + suma w xs

  pub suma-append : (w : A → ℕ) (xs ys : List A) → suma w (xs ++ ys) ≡ suma w xs + suma w ys
  unfolding suma
  suma-append w [] ys = omega arith
  suma-append w (x ∷ xs) ys = omega (arith, suma-append w xs ys)

  pub suma-uno_mas : (w : A → ℕ) (xs : List A) (x : A) → suma w (xs ++ x ∷ []) ≡ suma w xs + w x
  unfolding suma
  suma-uno_mas w xs x = omega (arith, suma-append w xs (x ∷ []))

  pub suma-insert_at :
      (w : A → ℕ) (x : A) (xs : List A) → suma w (insert_at (length xs) x xs) ≡ w x + suma w xs
  unfolding suma
  suma-insert_at w x [] = refl
  suma-insert_at w x (y ∷ xs) = omega (arith, suma-insert_at w x xs)

  pub suma-erase_first :
      (w : A → ℕ) (p : A → Bool) (xs : List A) (x : A)
      → find p xs ≡ some x
      → w x + suma w (erase_first p xs) ≡ suma w xs
  unfolding suma
  suma-erase_first w p [] x e = absurd (ground arith)
  suma-erase_first w p (y ∷ xs) x e = elim (Bool-cases (p y)) [
    | inl si ↦ let mismo : w y ≡ w x = ap w (some_inj (rw si at e)) in rw si (omega (arith, mismo))
    | inr otro ↦ let r = suma-erase_first w p xs x (rw otro at e) in rw otro (omega (arith, r))
  ]

  -- What `find` does not find is not there to erase.
  pub suma-erase_first_nada :
      (w : A → ℕ) (p : A → Bool) (xs : List A)
      → find p xs ≡ none
      → suma w (erase_first p xs) ≡ suma w xs
  unfolding suma
  suma-erase_first_nada w p [] e = refl
  suma-erase_first_nada w p (y ∷ xs) e = elim (Bool-cases (p y)) [
    | inl si ↦ absurd (ground arith)
    | inr otro ↦ let r = suma-erase_first_nada w p xs (rw otro at e) in rw otro (omega (arith, r))
  ]

  pub suma-cambiar_primero :
      (w : A → ℕ) (p : A → Bool) (f : A → A) (xs : List A) (x : A)
      → find p xs ≡ some x
      → suma w (cambiar_primero p f xs) + w x ≡ suma w xs + w (f x)
  unfolding suma cambiar_primero
  suma-cambiar_primero w p f [] x e = absurd (ground arith)
  suma-cambiar_primero w p f (y ∷ ys) x e = elim (Bool-cases (p y)) [
    | inl si ↦
        let mismo : y ≡ x = some_inj (rw si at e) in
        let a : w y ≡ w x = ap w mismo in
        let b : w (f y) ≡ w (f x) = ap (λ z. w (f z)) mismo in rw si (omega (arith, a, b))
    | inr otro ↦
        let r = suma-cambiar_primero w p f ys x (rw otro at e) in rw otro (omega (arith, r))
  ]

  -- A change that keeps the measure of each element.
  pub suma-cambiar_igual :
      (w : A → ℕ) (p : A → Bool) (f : A → A) (xs : List A)
      → ((x : A) → w (f x) ≡ w x)
      → suma w (cambiar_primero p f xs) ≡ suma w xs
  unfolding suma cambiar_primero
  suma-cambiar_igual w p f [] h = refl
  suma-cambiar_igual w p f (y ∷ ys) h = elim (Bool-cases (p y)) [
    | inl si ↦ rw si (omega (arith, h y))
    | inr otro ↦ let r = suma-cambiar_igual w p f ys h in rw otro (omega (arith, r))
  ]

  suma-Permᴰ : (w : A → ℕ) {xs ys : List A} → Permᴰ xs ys → suma w xs ≡ suma w ys
  unfolding suma
  suma-Permᴰ w Permᴰ.nil = refl
  suma-Permᴰ w (Permᴰ.cons e d) = omega (arith, ap w e, suma-Permᴰ w d)
  suma-Permᴰ w (Permᴰ.swap e f) = omega (arith, ap w e, ap w f)
  suma-Permᴰ w (Permᴰ.trans c d) = suma-Permᴰ w c ∙ suma-Permᴰ w d

  pub suma-Perm : (w : A → ℕ) (xs ys : List A) → Perm xs ys → suma w xs ≡ suma w ys
  suma-Perm w xs ys p = ∥∥₁_elim p (hlevel) (suma-Permᴰ w)
