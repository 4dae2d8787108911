-- ===== src/Umv/Busqueda/Huecos.antt =====
-- The free gaps of a memory, as the searches are to see them, and the walks over a gap.
use tp_sistemas_operativos_u.Base.{
  ℕ, zero, suc, ◌+◌, ◌-◌, ◌≤◌, ◌<◌, ◌≡◌, List, [], ◌∷◌, ◌==◌, arith, ◌⊎◌, inl, inr, Bool-cases,
}
use tp_sistemas_operativos_u.Umv.{Segmento, Umv, Ordenados}
use tp_sistemas_operativos_u.Umv.Busqueda.{Paso, avanzar_wf, avanzar_ff, siguiente}

-- Address and size of the space in front of each segment, and of the space behind the last one; an
-- empty space counts.
abbrev pub huecos : (p fin : ℕ) → List Segmento → List (ℕ × ℕ)
huecos p fin [] = (p, fin - p) ∷ []
huecos p fin (s ∷ ss) = (p, s.dir_fisica - p) ∷ huecos (s.dir_fisica + s.tamanio) fin ss

abbrev pub huecos_de : Umv → List (ℕ × ℕ)
huecos_de u = huecos u.inicio_memoria (u.inicio_memoria + u.cant_mem) u.segmentos

abbrev pub IsHueco : (p n : ℕ) → List (ℕ × ℕ) → Type 0
IsHueco p n [] = ⊥
IsHueco p n ((q, k) ∷ hs) = ((p ≡ q) × (n ≡ k)) ⊎ IsHueco p n hs

pub Ordenados-le : (p fin : ℕ) (ss : List Segmento) → Ordenados p fin ss → p ≤ fin
Ordenados-le p fin [] o = o
Ordenados-le p fin (s ∷ ss) o = omega (arith, Ordenados-le (s.dir_fisica + s.tamanio) fin ss o.2)

-- From `p`, which `posicion` counts, the walk stops at the segment and has counted the gap.
pub avanzar_wf_lem :
    (fuel cant dir ini : ℕ) (c : Paso)
    → ini + c.posicion ≡ c.p_moviendo
    → c.p_moviendo ≤ dir
    → dir < ini + cant
    → dir ≤ c.p_moviendo + fuel
    → avanzar_wf fuel cant dir c ≡ record {
      p_moviendo = dir;
      posicion = c.posicion + (dir - c.p_moviendo);
      cantidad = c.cantidad + (dir - c.p_moviendo);
    }
unfolding avanzar_wf
avanzar_wf_lem zero cant dir ini c e le lt f = ground arith
avanzar_wf_lem (suc fuel) cant dir ini c e le lt f = elim (Bool-cases (c.p_moviendo == dir)) [
  | inl here ↦ ground arith
  | inr away ↦ ground (
    arith,
    avanzar_wf_lem fuel cant dir ini (siguiente c) (omega arith) (ground arith) lt (omega arith),
  )
]

pub avanzar_ff_lem :
    (fuel cant dir ini : ℕ) (c : Paso)
    → ini + c.posicion ≡ c.p_moviendo
    → c.p_moviendo ≤ dir
    → dir < ini + cant
    → dir ≤ c.p_moviendo + fuel
    → avanzar_ff fuel cant dir c ≡ record {
      p_moviendo = dir;
      posicion = c.posicion + (dir - c.p_moviendo);
      cantidad = c.cantidad + (dir - c.p_moviendo);
    }
unfolding avanzar_ff
avanzar_ff_lem zero cant dir ini c e le lt f = ground arith
avanzar_ff_lem (suc fuel) cant dir ini c e le lt f = elim (Bool-cases (c.p_moviendo == dir)) [
  | inl here ↦ ground arith
  | inr away ↦ ground (
    arith,
    avanzar_ff_lem fuel cant dir ini (siguiente c) (omega arith) (ground arith) lt (omega arith),
  )
]
