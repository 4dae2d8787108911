-- ===== src/Cpu/Renombre.antt =====
-- The names of a context: what a value that is written leaves of them, and what contexts that stand
-- one behind the other have together.
use tp_sistemas_operativos_u.Base.{
  ℕ, zero, suc, ◌+◌, ◌*◌, ◌≤◌, ◌≡◌, refl, ap, ◌∙◌, ◌==◌, if◌then◌else◌, ◌||◌, false, inl, inr,
  Bool-cases, some, [], ◌∷◌, ◌++◌, arith, length, Bytes,
}
use tp_sistemas_operativos_u.Memoria.Rebanadas.{sobrescribir}
use tp_sistemas_operativos_u.Cpu.Contexto.{contiene, direccion, SinRepetir, Enteras, ninguna, otra}

cinco_mas : (j : ℕ) → 5 * suc j + 1 ≡ suc (suc (suc (suc (suc (5 * j + 1)))))
cinco_mas j = omega arith

pub sobrescribir-nil : (o : ℕ) (bs : Bytes) → sobrescribir o [] bs ≡ bs
sobrescribir-nil o [] = refl
sobrescribir-nil zero (b ∷ bs) = refl
sobrescribir-nil (suc o) (b ∷ bs) = ap (◌∷◌ b) (sobrescribir-nil o bs)

-- The value of the variable with the number `j`.
module _ (w1 w2 w3 w4 : ℕ) where
  pub contiene-sobrescribir :
      (j : ℕ) (bs : Bytes) (x : ℕ)
      → Enteras bs
      → contiene x (sobrescribir (5 * j + 1) (w1 ∷ w2 ∷ w3 ∷ w4 ∷ []) bs) ≡ contiene x bs
  unfolding contiene
  contiene-sobrescribir j _ x ninguna = refl
  contiene-sobrescribir zero _ x (otra n a b c d {resto} e) = rw (sobrescribir-nil zero resto) refl
  contiene-sobrescribir (suc j) _ x (otra n a b c d {resto} e) =
      rw (cinco_mas j) (ap (◌||◌ (n == x)) (contiene-sobrescribir j resto x e))

  pub direccion-sobrescribir :
      (j posicion : ℕ) (bs : Bytes) (x : ℕ)
      → Enteras bs
      → direccion posicion (sobrescribir (5 * j + 1) (w1 ∷ w2 ∷ w3 ∷ w4 ∷ []) bs) x
        ≡ direccion posicion bs x
  unfolding direccion
  direccion-sobrescribir j posicion _ x ninguna = refl
  direccion-sobrescribir zero posicion _ x (otra n a b c d {resto} e) =
      rw (sobrescribir-nil zero resto) refl
  direccion-sobrescribir (suc j) posicion _ x (otra n a b c d {resto} e) = rw (cinco_mas j) (
      ap (λ r. if n == x then some (posicion + 1) else r)
        (direccion-sobrescribir j (posicion + 5) resto x e))

  pub SinRepetir-sobrescribir :
      (j : ℕ) (bs : Bytes)
      → Enteras bs
      → SinRepetir bs
      → SinRepetir (sobrescribir (5 * j + 1) (w1 ∷ w2 ∷ w3 ∷ w4 ∷ []) bs)
  unfolding SinRepetir
  SinRepetir-sobrescribir j _ ninguna s = s
  SinRepetir-sobrescribir zero _ (otra n a b c d {resto} e) s = rw (sobrescribir-nil zero resto) s
  SinRepetir-sobrescribir (suc j) _ (otra n a b c d {resto} e) s =
      rw (cinco_mas j)
        (contiene-sobrescribir j resto n e ∙ s.0, SinRepetir-sobrescribir j resto e s.1)

-- Where a variable that has an address stands.
pub direccion-lugar :
    (posicion : ℕ) (bs : Bytes) (x p : ℕ)
    → Enteras bs
    → direccion posicion bs x ≡ some p
    → (j : ℕ) × (p ≡ posicion + (5 * j + 1)) × (5 * j + 5 ≤ length bs)
unfolding direccion
direccion-lugar posicion _ x p ninguna h = ground arith
direccion-lugar posicion _ x p (otra n a b c d {resto} e) h = elim (Bool-cases (n == x)) [
  | inl si ↦ (zero, ground (arith, h, si), omega arith)
  | inr otro ↦
      let r = direccion-lugar (posicion + 5) resto x p e (ground (arith, h, otro)) in
      (suc r.0, omega (arith, r.1), omega (arith, r.2))
]

contiene-append_otras :
    (bs cs : Bytes) (x : ℕ) → Enteras bs → contiene x (bs ++ cs) ≡ (contiene x bs || contiene x cs)
unfolding contiene
contiene-append_otras _ cs x ninguna = refl
contiene-append_otras _ cs x (otra n a b c d {resto} e) =
    ground (arith, contiene-append_otras resto cs x e)

-- A name behind a context in which none stands twice is not in it.
pub SinRepetir-contiene :
    (bs : Bytes) (n a b c d : ℕ) (resto : Bytes)
    → Enteras bs
    → SinRepetir (bs ++ n ∷ a ∷ b ∷ c ∷ d ∷ resto)
    → contiene n bs ≡ false
unfolding SinRepetir contiene
SinRepetir-contiene _ n a b c d resto ninguna s = refl
SinRepetir-contiene _ n a b c d resto (otra m a' b' c' d' {resto = bs} e) s = ground (
  arith,
  s.0,
  contiene-append_otras bs (n ∷ a ∷ b ∷ c ∷ d ∷ resto) m e,
  SinRepetir-contiene bs n a b c d resto e s.1,
)
