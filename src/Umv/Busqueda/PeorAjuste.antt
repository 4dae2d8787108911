-- ===== src/Umv/Busqueda/PeorAjuste.antt =====
-- Worst fit against the list of the gaps.
use tp_sistemas_operativos_u.Base.{
  ℕ, ◌+◌, ◌-◌, ◌≤◌, ◌<◌, ◌≡◌, refl, List, [], ◌∷◌, Option, none, some, false, ◌==◌, ltb, leb,
  if◌then◌else◌, arith, ◌⊎◌, inl, inr, Bool-cases, All,
}
use tp_sistemas_operativos_u.Umv.{Segmento, Umv, Ordenados, IsValid}
use tp_sistemas_operativos_u.Umv.Busqueda.{
  EstadoWf, nodo_wf, nodos_wf, final_wf, buscar_espacio_wf, inicio_wf,
}
use tp_sistemas_operativos_u.Umv.Busqueda.Huecos.{
  huecos, huecos_de, IsHueco, avanzar_wf_lem, Ordenados-le,
}

-- `r` holds the largest of the gaps `hs` and of what `e` had found before.
record Mayor (e r : EstadoWf) (hs : List (ℕ × ℕ)) : Type 0 where
  crece : e.mayor_tamanio ≤ r.mayor_tamanio
  cota : All (λ h. h.1 ≤ r.mayor_tamanio) hs
  viene :
      ((r.mayor_tamanio ≡ e.mayor_tamanio)
        × (r.p_mayor_tamanio ≡ e.p_mayor_tamanio)
        × (0 < e.mayor_tamanio))
      ⊎ IsHueco r.p_mayor_tamanio r.mayor_tamanio hs

-- The state behind a segment that stands at or after `p_moviendo`.
abbrev tras_nodo : Segmento → EstadoWf → EstadoWf
tras_nodo s e = record {
  p_moviendo = s.dir_fisica + s.tamanio;
  posicion = e.posicion + (s.dir_fisica - e.p_moviendo) + s.tamanio;
  mayor_tamanio =
      if ltb e.mayor_tamanio (s.dir_fisica - e.p_moviendo)
      then s.dir_fisica - e.p_moviendo
      else e.mayor_tamanio;
  p_mayor_tamanio =
      if ltb e.mayor_tamanio (s.dir_fisica - e.p_moviendo) then e.p_moviendo else e.p_mayor_tamanio;
}

nodo_wf_lem :
    (s : Segmento) (cant ini : ℕ) (e : EstadoWf)
    → ini + e.posicion ≡ e.p_moviendo
    → e.p_moviendo ≤ s.dir_fisica
    → s.dir_fisica < ini + cant
    → nodo_wf cant s e ≡ tras_nodo s e
unfolding nodo_wf
nodo_wf_lem s cant ini e h le lt =
    rw
      (avanzar_wf_lem cant cant s.dir_fisica ini
        (record { p_moviendo = e.p_moviendo; posicion = e.posicion; cantidad = 0 }) h le lt
        (omega arith))
      (ground arith)

un_nodo :
    (s : Segmento) (e r : EstadoWf) (fin : ℕ) (ss : List Segmento)
    → Ordenados e.p_moviendo fin (s ∷ ss)
    → Mayor (tras_nodo s e) r (huecos (s.dir_fisica + s.tamanio) fin ss)
    → Mayor e r (huecos e.p_moviendo fin (s ∷ ss))
un_nodo s e r fin ss o m = ground arith

nodos_wf_lem :
    (segs : List Segmento) (cant ini : ℕ) (e : EstadoWf)
    → ini + e.posicion ≡ e.p_moviendo
    → cant < 4294967296
    → Ordenados e.p_moviendo (ini + cant) segs
    → Mayor e (final_wf cant (nodos_wf cant segs e)) (huecos e.p_moviendo (ini + cant) segs)
unfolding nodos_wf
nodos_wf_lem [] cant ini e h w o = unfold final_wf in ground arith
nodos_wf_lem (s ∷ ss) cant ini e h w o =
    let fin = Ordenados-le _ _ ss o.2 in
    let here : (e.posicion == cant) ≡ false = ground arith in
    rw (here, nodo_wf_lem s cant ini e h o.0 (omega arith))
      (un_nodo s e _ (ini + cant) ss o
        (nodos_wf_lem ss cant ini (tras_nodo s e) (omega arith) w o.2))

-- The start of a gap of at least `n` bytes that no gap exceeds, or NULL where every gap is smaller.
abbrev pub EsPeorAjuste : ℕ → List (ℕ × ℕ) → Option ℕ → Type 0
EsPeorAjuste n hs none = All (λ h. h.1 < n) hs
EsPeorAjuste n hs (some p) = (k : ℕ) × IsHueco p k hs × (n ≤ k) × All (λ h. h.1 ≤ k) hs

All-lt : (k n : ℕ) (hs : List (ℕ × ℕ)) → k < n → All (λ h. h.1 ≤ k) hs → All (λ h. h.1 < n) hs
All-lt k n [] h a = tt
All-lt k n (x ∷ hs) h a = (omega arith, All-lt k n hs h a.1)

elegir :
    (n : ℕ) (e r : EstadoWf) (hs : List (ℕ × ℕ))
    → e.mayor_tamanio ≡ 0
    → Mayor e r hs
    → EsPeorAjuste n hs (if leb n r.mayor_tamanio then some r.p_mayor_tamanio else none)
elegir n e r hs z m = elim (Bool-cases (leb n r.mayor_tamanio)) [
  | inl fits ↦ rw fits (r.mayor_tamanio, ground arith, ground arith, m.cota)
  | inr small ↦ rw small (All-lt r.mayor_tamanio n hs (ground arith) m.cota)
]

-- In a valid state worst fit returns the start of a gap of at least `n` bytes that no gap exceeds,
-- and NULL only where every gap is smaller than `n`.
pub buscar_espacio_wf-EsPeorAjuste :
    (u : Umv) (n : ℕ) → IsValid u → EsPeorAjuste n (huecos_de u) (buscar_espacio_wf u n)
unfolding buscar_espacio_wf
buscar_espacio_wf-EsPeorAjuste u n v = elegir n (inicio_wf u) _ (huecos_de u) refl (
    nodos_wf_lem u.segmentos u.cant_mem u.inicio_memoria (inicio_wf u) (omega arith) (omega arith)
      v.ordenados)
