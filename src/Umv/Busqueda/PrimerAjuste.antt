-- ===== src/Umv/Busqueda/PrimerAjuste.antt =====
-- First fit against the list of the gaps.
use tp_sistemas_operativos_u.Base.{
  ℕ, ◌+◌, ◌-◌, ◌≤◌, ◌<◌, ◌≡◌, List, [], ◌∷◌, Option, none, some, leb, if◌then◌else◌, arith, sub32,
}
use tp_sistemas_operativos_u.Umv.{Segmento, Umv, Ordenados, IsValid}
use tp_sistemas_operativos_u.Umv.Busqueda.{nodos_ff, final_ff, buscar_espacio_ff}
use tp_sistemas_operativos_u.Umv.Busqueda.Huecos.{huecos, huecos_de, avanzar_ff_lem, Ordenados-le}

-- The first gap of at least `n` bytes.
unfoldable pub primer_hueco : ℕ → List (ℕ × ℕ) → Option ℕ
primer_hueco n [] = none
primer_hueco n ((q, k) ∷ hs) = if leb n k then some q else primer_hueco n hs

final_ff_lem :
    (cant n ini p pos : ℕ)
    → ini + pos ≡ p
    → p ≤ ini + cant
    → cant < 4294967296
    → final_ff cant n p pos ≡ primer_hueco n ((p, ini + cant - p) ∷ [])
unfolding final_ff primer_hueco
final_ff_lem cant n ini p pos e le w = let s : sub32 cant pos ≡ ini + cant - p = omega arith in rw s

nodos_ff_lem :
    (segs : List Segmento) (cant n ini p pos : ℕ)
    → ini + pos ≡ p
    → cant < 4294967296
    → Ordenados p (ini + cant) segs
    → nodos_ff cant n segs p pos ≡ primer_hueco n (huecos p (ini + cant) segs)
unfolding nodos_ff primer_hueco
nodos_ff_lem [] cant n ini p pos e w o = final_ff_lem cant n ini p pos e o w
nodos_ff_lem (s ∷ ss) cant n ini p pos e w o =
    let fin = Ordenados-le _ _ ss o.2 in
    rw
      (avanzar_ff_lem cant cant s.dir_fisica ini
        (record { p_moviendo = p; posicion = pos; cantidad = 0 }) e o.0 (omega arith) (omega arith))
      (ground (
        arith,
        nodos_ff_lem ss cant n ini (s.dir_fisica + s.tamanio) (pos + (s.dir_fisica - p) + s.tamanio)
            (omega arith) w o.2,
      ))

-- In a valid state first fit returns the first gap that is large enough, and NULL if there is none.
pub buscar_espacio_ff-primer_hueco :
    (u : Umv) (n : ℕ) → IsValid u → buscar_espacio_ff u n ≡ primer_hueco n (huecos_de u)
unfolding buscar_espacio_ff
buscar_espacio_ff-primer_hueco u n v =
    nodos_ff_lem u.segmentos u.cant_mem n u.inicio_memoria u.inicio_memoria 0 (omega arith)
      (omega arith) v.ordenados
