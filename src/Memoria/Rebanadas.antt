-- ===== src/Memoria/Rebanadas.antt =====
-- Parts of a block of memory as parts of the list of its bytes.
use tp_sistemas_operativos_u.Base.{
  ℕ, zero, suc, ◌+◌, ◌≤◌, ◌<◌, ◌≡◌, refl, ap, ◌∙◌, inl, [], ◌∷◌, arith, length, take, drop, Bytes,
}
use tp_sistemas_operativos_u.Memoria.{Memoria, poner, leer, escribir}
use tp_sistemas_operativos_u.Memoria.Copia.{leer-agree, escribir_outside}

-- `bs` written over `c` from its `offset`-th byte on.
abbrev pub sobrescribir : ℕ → Bytes → Bytes → Bytes
sobrescribir offset bs [] = []
sobrescribir zero [] (c ∷ cs) = c ∷ cs
sobrescribir zero (b ∷ bs) (c ∷ cs) = b ∷ sobrescribir zero bs cs
sobrescribir (suc offset) bs (c ∷ cs) = c ∷ sobrescribir offset bs cs

abbrev pub rebanada : (offset n : ℕ) → Bytes → Bytes
rebanada offset n c = take n (drop offset c)

take-leer : (m : Memoria) (p n t : ℕ) → n ≤ t → leer m p n ≡ take n (leer m p t)
unfolding leer
take-leer m p zero t h = refl
take-leer m p (suc n) zero h = elim h [ ]
take-leer m p (suc n) (suc t) h = ap (◌∷◌ (m p)) (take-leer m (p + 1) n t (omega arith))

-- A part of a block is the same part of its bytes.
pub leer-rebanada :
    (m : Memoria) (p a offset n t : ℕ)
    → a ≡ p + offset
    → offset + n ≤ t
    → leer m a n ≡ rebanada offset n (leer m p t)
leer-rebanada m p a zero n t e h =
    let e' : a ≡ p = omega arith in rw e' (take-leer m p n t (omega arith))
leer-rebanada m p a (suc offset) n zero e h = absurd (omega arith)
leer-rebanada m p a (suc offset) n (suc t) e h =
    leer-rebanada m (p + 1) a offset n t (omega arith) (omega arith) ∙ unfold leer in refl

poner_self : (m : Memoria) (p b : ℕ) → poner m p b p ≡ b
unfolding poner
poner_self m p b = ground arith

poner_ne : (m : Memoria) (p b q : ℕ) → p < q → poner m p b q ≡ m q
unfolding poner
poner_ne m p b q h = ground arith

pub leer-sobrescribir :
    (bs : Bytes) (m : Memoria) (p a offset t : ℕ)
    → a ≡ p + offset
    → offset + length bs ≤ t
    → leer (escribir m a bs) p t ≡ sobrescribir offset bs (leer m p t)
unfolding leer escribir
leer-sobrescribir bs m p a offset zero e h = refl
leer-sobrescribir [] m p a zero (suc t) e h = refl
leer-sobrescribir (b ∷ bs) m p a zero (suc t) e h = ground (
  arith,
  escribir_outside bs (poner m a b) (a + 1) p (inl (omega arith)),
  poner_self m a b,
  leer-sobrescribir bs (poner m a b) (p + 1) (a + 1) zero t (omega arith) (omega arith),
  leer-agree (poner m a b) m (p + 1) t (λ q lo hi. poner_ne m a b q (omega arith)),
)
leer-sobrescribir bs m p a (suc offset) (suc t) e h = ground (
  arith,
  escribir_outside bs m a p (inl (omega arith)),
  leer-sobrescribir bs m (p + 1) a offset t (omega arith) (omega arith),
)

-- What was written over a part is what the part holds.
pub rebanada-sobrescribir :
    (offset : ℕ) (bs c : Bytes)
    → offset + length bs ≤ length c
    → rebanada offset (length bs) (sobrescribir offset bs c) ≡ bs
rebanada-sobrescribir zero [] c h = refl
rebanada-sobrescribir (suc offset) [] [] h = refl
rebanada-sobrescribir (suc offset) [] (x ∷ c) h = rebanada-sobrescribir offset [] c (omega arith)
rebanada-sobrescribir zero (b ∷ bs) [] h = absurd (omega arith)
rebanada-sobrescribir zero (b ∷ bs) (x ∷ c) h =
    ap (◌∷◌ b) (rebanada-sobrescribir zero bs c (omega arith))
rebanada-sobrescribir (suc offset) (b ∷ bs) [] h = absurd (omega arith)
rebanada-sobrescribir (suc offset) (b ∷ bs) (x ∷ c) h =
    rebanada-sobrescribir offset (b ∷ bs) c (omega arith)
