-- ===== src/Memoria/Partes.antt =====
-- Parts of a list of bytes, and what a write elsewhere leaves of them.
use tp_sistemas_operativos_u.Base.{
  ℕ, zero, suc, ◌+◌, ◌≤◌, ◌≡◌, refl, ap, ◌∙◌, [], ◌∷◌, ◌++◌, arith, length, take, drop, Bytes,
}
use tp_sistemas_operativos_u.Memoria.Rebanadas.{sobrescribir, rebanada}

pub length-sobrescribir : (offset : ℕ) (bs c : Bytes) → length (sobrescribir offset bs c) ≡ length c
length-sobrescribir offset bs [] = refl
length-sobrescribir zero [] (c ∷ cs) = refl
length-sobrescribir zero (b ∷ bs) (c ∷ cs) = ap suc (length-sobrescribir zero bs cs)
length-sobrescribir (suc offset) bs (c ∷ cs) = ap suc (length-sobrescribir offset bs cs)

pub length-rebanada : (o n : ℕ) (c : Bytes) → o + n ≤ length c → length (rebanada o n c) ≡ n
length-rebanada zero zero c h = refl
length-rebanada zero (suc n) [] h = absurd (omega arith)
length-rebanada zero (suc n) (x ∷ c) h = ap suc (length-rebanada zero n c (omega arith))
length-rebanada (suc o) zero [] h = refl
length-rebanada (suc o) (suc n) [] h = absurd (omega arith)
length-rebanada (suc o) n (x ∷ c) h = length-rebanada o n c (omega arith)

-- A write behind a part.
pub rebanada-sobrescribir_antes :
    (o n offset : ℕ) (bs c : Bytes)
    → o + n ≤ offset
    → rebanada o n (sobrescribir offset bs c) ≡ rebanada o n c
rebanada-sobrescribir_antes o n offset bs [] h = refl
rebanada-sobrescribir_antes zero zero offset bs (x ∷ c) h = refl
rebanada-sobrescribir_antes zero (suc n) zero bs (x ∷ c) h = absurd (omega arith)
rebanada-sobrescribir_antes zero (suc n) (suc offset) bs (x ∷ c) h =
    ap (◌∷◌ x) (rebanada-sobrescribir_antes zero n offset bs c (omega arith))
rebanada-sobrescribir_antes (suc o) n zero bs (x ∷ c) h = absurd (omega arith)
rebanada-sobrescribir_antes (suc o) n (suc offset) bs (x ∷ c) h =
    rebanada-sobrescribir_antes o n offset bs c (omega arith)

-- A write inside a part.
take-sobrescribir :
    (n o : ℕ) (bs c : Bytes)
    → o + length bs ≤ n
    → take n (sobrescribir o bs c) ≡ sobrescribir o bs (take n c)
take-sobrescribir zero zero [] [] h = refl
take-sobrescribir zero zero [] (x ∷ c) h = refl
take-sobrescribir zero zero (b ∷ bs) c h = absurd (omega arith)
take-sobrescribir zero (suc o) bs c h = absurd (omega arith)
take-sobrescribir (suc n) o bs [] h = refl
take-sobrescribir (suc n) zero [] (x ∷ c) h = refl
take-sobrescribir (suc n) zero (b ∷ bs) (x ∷ c) h =
    ap (◌∷◌ b) (take-sobrescribir n zero bs c (omega arith))
take-sobrescribir (suc n) (suc o) bs (x ∷ c) h =
    ap (◌∷◌ x) (take-sobrescribir n o bs c (omega arith))

pub rebanada-sobrescribir_dentro :
    (a n o p : ℕ) (bs c : Bytes)
    → p ≡ a + o
    → o + length bs ≤ n
    → rebanada a n (sobrescribir p bs c) ≡ sobrescribir o bs (rebanada a n c)
rebanada-sobrescribir_dentro zero n o p bs c e h =
    let e' : p ≡ o = omega arith in rw e' (take-sobrescribir n o bs c h)
rebanada-sobrescribir_dentro (suc a) zero zero p [] [] e h = refl
rebanada-sobrescribir_dentro (suc a) zero zero p (b ∷ bs) [] e h = absurd (omega arith)
rebanada-sobrescribir_dentro (suc a) zero (suc o) p bs [] e h = absurd (omega arith)
rebanada-sobrescribir_dentro (suc a) (suc n) o p bs [] e h = refl
rebanada-sobrescribir_dentro (suc a) n o zero bs (x ∷ c) e h = absurd (omega arith)
rebanada-sobrescribir_dentro (suc a) n o (suc p) bs (x ∷ c) e h =
    rebanada-sobrescribir_dentro a n o p bs c (omega arith) h

-- Two parts that follow one another.
take_suma : (n m t : ℕ) (c : Bytes) → t ≡ n + m → take t c ≡ take n c ++ take m (drop n c)
take_suma zero m t c e = let e' : t ≡ m = omega arith in rw e' refl
take_suma (suc n) zero zero [] e = refl
take_suma (suc n) (suc m) zero [] e = refl
take_suma (suc n) zero (suc t) [] e = refl
take_suma (suc n) (suc m) (suc t) [] e = refl
take_suma (suc n) m zero (x ∷ c) e = absurd (omega arith)
take_suma (suc n) m (suc t) (x ∷ c) e = ap (◌∷◌ x) (take_suma n m t c (omega arith))

drop-drop : (o n p : ℕ) (c : Bytes) → p ≡ o + n → drop n (drop o c) ≡ drop p c
drop-drop zero n p c e = let e' : p ≡ n = omega arith in rw e' refl
drop-drop (suc o) zero zero [] e = refl
drop-drop (suc o) (suc n) zero [] e = refl
drop-drop (suc o) zero (suc p) [] e = refl
drop-drop (suc o) (suc n) (suc p) [] e = refl
drop-drop (suc o) n zero (x ∷ c) e = absurd (omega arith)
drop-drop (suc o) n (suc p) (x ∷ c) e = drop-drop o n p c (omega arith)

pub rebanada-append :
    (o n m t p : ℕ) (c : Bytes)
    → t ≡ n + m
    → p ≡ o + n
    → rebanada o t c ≡ rebanada o n c ++ rebanada p m c
rebanada-append o n m t p c e f =
    take_suma n m t (drop o c) e ∙ ap (λ x. take n (drop o c) ++ take m x) (drop-drop o n p c f)
