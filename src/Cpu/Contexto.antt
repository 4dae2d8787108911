-- ===== src/Cpu/Contexto.antt =====
-- The variables of a context: five bytes each on the stack, a name and a value, and the dictionary in
-- which the CPU keeps the addresses of their values.
use tp_sistemas_operativos_u.Base.{
  ℕ, zero, suc, ◌+◌, ◌*◌, ◌<◌, ◌≡◌, ◌≢◌, refl, sym, ap, ◌∙◌, ◌==◌, if◌then◌else◌, ◌||◌, Bool, true,
  false, inl, inr, Bool-cases, Option, none, some, [], ◌∷◌, ◌++◌, arith, length, Bytes, add32,
}
use mathlib.Core.Bool.{false≢true}
use tp_sistemas_operativos_u.Commons.{DictLib}
use tp_sistemas_operativos_u.Cpu.Memoria.{nombre_variable, cargar_variables}

-- Whether a variable of this name is in the bytes of a context.
unfoldable pub contiene : ℕ → Bytes → Bool
contiene id (n ∷ a ∷ b ∷ c ∷ d ∷ resto) = (n == id) || contiene id resto
contiene id _ = false

-- The address of its value, where the context starts at `posicion`.
unfoldable pub direccion : (posicion : ℕ) → Bytes → ℕ → Option ℕ
direccion posicion (n ∷ a ∷ b ∷ c ∷ d ∷ resto) id =
    if n == id then some (posicion + 1) else direccion (posicion + 5) resto id
direccion posicion _ id = none

-- No name stands twice.
unfoldable pub SinRepetir : Bytes → Type 0
SinRepetir (n ∷ a ∷ b ∷ c ∷ d ∷ resto) = (contiene n resto ≡ false) × SinRepetir resto
SinRepetir _ = Unit

pub nombre_variable_inj : (a b : ℕ) → a ≢ b → nombre_variable a ≢ nombre_variable b
unfolding nombre_variable
nombre_variable_inj a b ne e = ground arith

module _ {D : Type 0} (dic : DictLib D) where
  pub cargar_variables-direccion :
      (k posicion : ℕ) (bs : Bytes) (d : D) (id : ℕ)
      → length bs ≡ 5 * k
      → posicion + length bs < 4294967296
      → SinRepetir bs
      → ((i : ℕ) → contiene i bs ≡ true → dic.dictionary_get d (nombre_variable i) ≡ none)
      → dic.dictionary_get (cargar_variables dic posicion bs d) (nombre_variable id) ≡ (
          if contiene id bs
          then direccion posicion bs id
          else dic.dictionary_get d (nombre_variable id))
  unfolding cargar_variables contiene direccion SinRepetir
  cargar_variables-direccion k posicion [] d id l w u h = refl
  cargar_variables-direccion zero posicion (n ∷ bs) d id l w u h = absurd (omega arith)
  cargar_variables-direccion (suc k) posicion (n ∷ []) d id l w u h = absurd (omega arith)
  cargar_variables-direccion (suc k) posicion (n ∷ v1 ∷ []) d id l w u h = absurd (omega arith)
  cargar_variables-direccion (suc k) posicion (n ∷ v1 ∷ v2 ∷ []) d id l w u h = absurd (omega arith)
  cargar_variables-direccion (suc k) posicion (n ∷ v1 ∷ v2 ∷ v3 ∷ []) d id l w u h =
      absurd (omega arith)
  cargar_variables-direccion (suc k) posicion (n ∷ v1 ∷ v2 ∷ v3 ∷ v4 ∷ resto) d id l w u h =
      let dir : add32 posicion 1 ≡ posicion + 1 = omega arith in
      let puesto =
        dic.dictionary_put_same d (nombre_variable n) (add32 posicion 1) (h n (ground arith)) in
      let ajeno : (i : ℕ)
          → (n == i) ≡ false
          → dic.dictionary_get (dic.dictionary_put d (nombre_variable n) (add32 posicion 1))
              (nombre_variable i)
            ≡ dic.dictionary_get d (nombre_variable i) =
        λ i o.
          dic.dictionary_put_other d (nombre_variable n) (nombre_variable i) (add32 posicion 1)
            (nombre_variable_inj i n (λ e. ground (arith, o, e))) in
      let paso =
        cargar_variables-direccion k (posicion + 5) resto
          (dic.dictionary_put d (nombre_variable n) (add32 posicion 1)) id (omega (arith, l))
          (omega (arith, w)) u.1
          (λ i e. elim (Bool-cases (n == i)) [
            | inl si ↦
                let mismo : n ≡ i = ground arith in
                absurd (false≢true (sym u.0 ∙ ap (λ x. contiene x resto) mismo ∙ e))
            | inr no_es ↦ ajeno i no_es ∙ h i (ground (arith, e))
          ]) in
      elim (Bool-cases (n == id)) [
        | inl si ↦
            let mismo : n ≡ id = ground arith in
            let falta : contiene id resto ≡ false = sym (ap (λ x. contiene x resto) mismo) ∙ u.0 in
            rw si (
              paso
              ∙ rw falta (
                  sym (
                    ap
                      (λ x.
                        dic.dictionary_get
                          (dic.dictionary_put d (nombre_variable n) (add32 posicion 1))
                          (nombre_variable x))
                      mismo)
                  ∙ puesto
                  ∙ ap some dir))
        | inr no_es ↦ rw no_es (paso ∙ rw (ajeno id no_es) refl)
      ]

-- Bytes that are whole variables.
pub data Enteras : Bytes → Type 0 where
  ninguna : Enteras []
  otra : (n a b c d : ℕ) {resto : Bytes} → Enteras resto → Enteras (n ∷ a ∷ b ∷ c ∷ d ∷ resto)

pub Enteras-length : (k : ℕ) (bs : Bytes) → length bs ≡ 5 * k → Enteras bs
Enteras-length k [] l = ninguna
Enteras-length zero (n ∷ bs) l = absurd (omega arith)
Enteras-length (suc k) (n ∷ []) l = absurd (omega arith)
Enteras-length (suc k) (n ∷ a ∷ []) l = absurd (omega arith)
Enteras-length (suc k) (n ∷ a ∷ b ∷ []) l = absurd (omega arith)
Enteras-length (suc k) (n ∷ a ∷ b ∷ c ∷ []) l = absurd (omega arith)
Enteras-length (suc k) (n ∷ a ∷ b ∷ c ∷ d ∷ resto) l =
    otra n a b c d (Enteras-length k resto (omega (arith, l)))

-- Only the variables of the context have an address.
pub direccion-contiene :
    (posicion : ℕ) (bs : Bytes) (id : ℕ)
    → Enteras bs
    → (if contiene id bs then direccion posicion bs id else none) ≡ direccion posicion bs id
unfolding direccion contiene
direccion-contiene posicion _ id ninguna = refl
direccion-contiene posicion _ id (otra n a b c d {resto} e) =
    ground (arith, direccion-contiene (posicion + 5) resto id e)

-- One more variable behind the others.
module _ (id v1 v2 v3 v4 : ℕ) where
  pub contiene-append :
      (bs : Bytes) (x : ℕ)
      → Enteras bs
      → contiene x (bs ++ id ∷ v1 ∷ v2 ∷ v3 ∷ v4 ∷ []) ≡ (contiene x bs || (id == x))
  unfolding contiene
  contiene-append _ x ninguna = ground arith
  contiene-append _ x (otra n a b c d {resto} e) = ground (arith, contiene-append resto x e)

  pub SinRepetir-append :
      (bs : Bytes)
      → Enteras bs
      → SinRepetir bs
      → contiene id bs ≡ false
      → SinRepetir (bs ++ id ∷ v1 ∷ v2 ∷ v3 ∷ v4 ∷ [])
  unfolding contiene SinRepetir
  SinRepetir-append _ ninguna u h = (refl, tt)
  SinRepetir-append _ (otra n a b c d {resto} e) u h = (
    contiene-append resto n e ∙ ground (arith, u.0),
    SinRepetir-append resto e u.1 (ground (arith, h)),
  )

  pub direccion-append :
      (posicion : ℕ) (bs : Bytes) (x : ℕ)
      → Enteras bs
      → direccion posicion (bs ++ id ∷ v1 ∷ v2 ∷ v3 ∷ v4 ∷ []) x ≡ (
          if contiene x bs
          then direccion posicion bs x
          else if id == x
          then some (posicion + length bs + 1)
          else none)
  unfolding contiene direccion
  direccion-append posicion _ x ninguna = ground arith
  direccion-append posicion _ x (otra n a b c d {resto} e) =
      ground (arith, direccion-append (posicion + 5) resto x e)

-- The dictionary of a context with one more variable.
pub dictionary_put-direccion :
    {D : Type 0} (dic : DictLib D) (d : D) (posicion : ℕ) (bs : Bytes) (n valor id : ℕ)
    → ((i : ℕ) → dic.dictionary_get d (nombre_variable i) ≡ direccion posicion bs i)
    → Enteras bs
    → contiene n bs ≡ false
    → dic.dictionary_get (dic.dictionary_put d (nombre_variable n) valor) (nombre_variable id)
      ≡ (if contiene id bs then direccion posicion bs id else if n == id then some valor else none)
dictionary_put-direccion dic d posicion bs n valor id g q h = elim (Bool-cases (n == id)) [
  | inl si ↦
      let mismo : n ≡ id = ground arith in
      let falta : contiene id bs ≡ false = sym (ap (λ x. contiene x bs) mismo) ∙ h in
      let libre : dic.dictionary_get d (nombre_variable n) ≡ none =
        g n ∙ sym (direccion-contiene posicion bs n q) ∙ rw h refl in
      rw (si, falta)
        (sym (
            ap
              (λ x.
                dic.dictionary_get (dic.dictionary_put d (nombre_variable n) valor)
                  (nombre_variable x))
              mismo)
          ∙ dic.dictionary_put_same d (nombre_variable n) valor libre)
  | inr otro ↦ rw otro (
      dic.dictionary_put_other d (nombre_variable n) (nombre_variable id) valor
        (nombre_variable_inj id n (λ e. ground (arith, otro, e)))
      ∙ g id
      ∙ sym (direccion-contiene posicion bs id q))
]
