-- ===== src/Umv/Busqueda/Resultado.antt =====
-- The two searches under one description of their answer.
use tp_sistemas_operativos_u.Base.{
  ℕ, ◌≤◌, ◌<◌, ◌≡◌, refl, List, [], ◌∷◌, Option, none, some, true, false, ◌==◌, leb, ◌⊎◌, inl, inr,
  arith, All, Bool-cases,
}
use tp_sistemas_operativos_u.Umv.{Umv, IsValid, wf, ff}
use tp_sistemas_operativos_u.Umv.Busqueda.{buscar_espacio}
use tp_sistemas_operativos_u.Umv.Busqueda.Huecos.{huecos_de, IsHueco}
use tp_sistemas_operativos_u.Umv.Busqueda.PrimerAjuste.{
  primer_hueco, buscar_espacio_ff-primer_hueco,
}
use tp_sistemas_operativos_u.Umv.Busqueda.PeorAjuste.{EsPeorAjuste, buscar_espacio_wf-EsPeorAjuste}

-- The start of a gap of at least `n` bytes, or NULL where every gap is smaller.
abbrev pub EsAjuste : ℕ → List (ℕ × ℕ) → Option ℕ → Type 0
EsAjuste n hs none = All (λ h. h.1 < n) hs
EsAjuste n hs (some p) = (k : ℕ) × IsHueco p k hs × (n ≤ k)

Ajuste-cons :
    (n q k : ℕ) (hs : List (ℕ × ℕ)) (o : Option ℕ)
    → k < n
    → EsAjuste n hs o
    → EsAjuste n ((q, k) ∷ hs) o
Ajuste-cons n q k hs none h a = (h, a)
Ajuste-cons n q k hs (some p) h a = (a.0, inr a.1, a.2)

primer_hueco-EsAjuste : (n : ℕ) (hs : List (ℕ × ℕ)) → EsAjuste n hs (primer_hueco n hs)
unfolding primer_hueco
primer_hueco-EsAjuste n [] = tt
primer_hueco-EsAjuste n ((q, k) ∷ hs) = elim (Bool-cases (leb n k)) [
  | inl fits ↦ rw fits (k, inl (refl, refl), ground arith)
  | inr small ↦
      rw small
        (Ajuste-cons n q k hs (primer_hueco n hs) (ground arith) (primer_hueco-EsAjuste n hs))
]

peor-EsAjuste : (n : ℕ) (hs : List (ℕ × ℕ)) (o : Option ℕ) → EsPeorAjuste n hs o → EsAjuste n hs o
peor-EsAjuste n hs none a = a
peor-EsAjuste n hs (some p) a = (a.0, a.1, a.2)

-- With either of the two algorithms the search of a valid state finds a gap of at least `n` bytes,
-- and answers NULL only where every gap is smaller.
pub buscar_espacio-EsAjuste :
    (u : Umv) (n : ℕ)
    → IsValid u
    → (u.alg_mem ≡ wf) ⊎ (u.alg_mem ≡ ff)
    → EsAjuste n (huecos_de u) (buscar_espacio u n)
unfolding buscar_espacio
buscar_espacio-EsAjuste u n v (inl e) =
    let t : (u.alg_mem == wf) ≡ true = ground arith in
    rw t (peor-EsAjuste n _ _ (buscar_espacio_wf-EsPeorAjuste u n v))
buscar_espacio-EsAjuste u n v (inr e) =
    let t : (u.alg_mem == wf) ≡ false = ground arith in
    let t' : (u.alg_mem == ff) ≡ true = ground arith in
    rw (t, t', buscar_espacio_ff-primer_hueco u n v) (primer_hueco-EsAjuste n (huecos_de u))
