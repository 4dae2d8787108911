-- ===== src/Memoria/Copia.antt =====
-- What the copies of the memory server leave in memory.
use tp_sistemas_operativos_u.Base.{
  ℕ, zero, suc, ◌+◌, ◌≤◌, ◌<◌, ◌≡◌, refl, ap, ◌∙◌, ◌⊎◌, inl, [], ◌∷◌, arith, length, Bytes,
}
use tp_sistemas_operativos_u.Memoria.{Memoria, poner, leer, escribir, mover}

pub length-leer : (m : Memoria) (p n : ℕ) → length (leer m p n) ≡ n
unfolding leer
length-leer m p zero = refl
length-leer m p (suc n) = ap suc (length-leer m (p + 1) n)

-- A block reads the same from two memories that agree on it.
pub leer-agree :
    (m k : Memoria) (p n : ℕ) → ((q : ℕ) → p ≤ q → q < p + n → m q ≡ k q) → leer m p n ≡ leer k p n
unfolding leer
leer-agree m k p zero same = refl
leer-agree m k p (suc n) same = ground (
  arith,
  same p (omega arith) (omega arith),
  leer-agree m k (p + 1) n (λ q lo hi. same q (omega arith) (omega arith)),
)

-- The same, between two places.
pub leer-shift :
    (m k : Memoria) (p r n : ℕ)
    → ((i : ℕ) → i < n → m (p + i) ≡ k (r + i))
    → leer m p n ≡ leer k r n
unfolding leer
leer-shift m k p r zero same = refl
leer-shift m k p r (suc n) same = ground (
  arith,
  same 0 (omega arith),
  leer-shift m k (p + 1) (r + 1) n λ i h.
      let e : p + 1 + i ≡ p + (i + 1) = omega arith in
      let f : r + (i + 1) ≡ r + 1 + i = omega arith in ap m e ∙ same (i + 1) (omega arith) ∙ ap k f,
)

-- Outside its target a copy changes nothing.
pub mover_outside :
    (n src dst : ℕ) (m : Memoria) (q : ℕ) → (q < dst) ⊎ (dst + n ≤ q) → mover n src dst m q ≡ m q
unfolding mover poner
mover_outside zero src dst m q out = refl
mover_outside (suc n) src dst m q out =
    mover_outside n (src + 1) (dst + 1) _ q (omega arith) ∙ ground arith

-- A copy towards lower addresses is right also where the two blocks overlap.
pub mover_inside :
    (n src dst : ℕ) (m : Memoria) (i : ℕ)
    → dst ≤ src
    → i < n
    → mover n src dst m (dst + i) ≡ m (src + i)
unfolding mover poner
mover_inside zero src dst m i le lt = elim lt [ ]
mover_inside (suc n) src dst m zero le lt =
    mover_outside n (src + 1) (dst + 1) (poner m dst (m src)) (dst + 0) (omega arith) ∙ ground arith
mover_inside (suc n) src dst m (suc i) le lt =
    let e : dst + suc i ≡ dst + 1 + i = omega arith in
    let f : src + 1 + i ≡ src + suc i = omega arith in
    ap (mover n (src + 1) (dst + 1) (poner m dst (m src))) e
    ∙ mover_inside n (src + 1) (dst + 1) (poner m dst (m src)) i (omega arith) (omega arith)
    ∙ ground (arith, ap m f)

pub escribir_outside :
    (bs : Bytes) (m : Memoria) (p q : ℕ) → (q < p) ⊎ (p + length bs ≤ q) → escribir m p bs q ≡ m q
unfolding escribir poner
escribir_outside [] m p q out = refl
escribir_outside (b ∷ bs) m p q out = escribir_outside bs _ (p + 1) q (omega arith) ∙ ground arith

-- What was written is read back.
pub leer-escribir : (bs : Bytes) (m : Memoria) (p : ℕ) → leer (escribir m p bs) p (length bs) ≡ bs
unfolding escribir leer
leer-escribir [] m p = refl
leer-escribir (b ∷ bs) m p = ground (
  arith,
  escribir_outside bs (poner m p b) (p + 1) p (inl (omega arith)),
  leer-escribir bs (poner m p b) (p + 1),
  poner_self,
)
  where
    poner_self : poner m p b p ≡ b
    poner_self = unfold poner in ground arith
