-- ===== src/Umv/Busqueda.antt =====
-- The search for free space in umv/umvMain.c: worst fit, first fit and the choice between them.
-- A pointer is its address, and NULL is `none`. Both searches walk over the free bytes one by one; the
-- fuel is CANT_MEM, the most steps that `posicion` can take.
pub mod Huecos
pub mod PeorAjuste
pub mod PrimerAjuste
pub mod Resultado
use tp_sistemas_operativos_u.Base.{
  ℕ, zero, suc, ◌+◌, ◌-◌, List, [], ◌∷◌, Option, none, some, Bool, true, false, not, ◌&&◌, ◌==◌,
  ltb, leb, if◌then◌else◌, sub32,
}
use tp_sistemas_operativos_u.Umv.{Segmento, Umv, wf, ff}

-- The variables of the walk over the free bytes in front of a segment.
pub record Paso : Type 0 where
  pub p_moviendo : ℕ
  pub posicion : ℕ
  pub cantidad : ℕ

abbrev pub siguiente : Paso → Paso
siguiente c = record {
  p_moviendo = c.p_moviendo + 1;
  posicion = c.posicion + 1;
  cantidad = c.cantidad + 1;
}

-- while ((pMoviendo != dirFisicaNodo) && (posicion != CANT_MEM))
unfoldable pub avanzar_wf : (fuel cant_mem dir_fisica_nodo : ℕ) → Paso → Paso
avanzar_wf zero cant_mem dir c = c
avanzar_wf (suc fuel) cant_mem dir c =
    elim (not (c.p_moviendo == dir) && not (c.posicion == cant_mem)) [
      | true ↦ avanzar_wf fuel cant_mem dir (siguiente c)
      | false ↦ c
    ]

-- The variables of `buscarEspacioWF`. `pMayorTamanio` is set before it is read.
pub record EstadoWf : Type 0 where
  pub p_moviendo : ℕ
  pub posicion : ℕ
  pub mayor_tamanio : ℕ
  pub p_mayor_tamanio : ℕ

-- One round of the loop over the segments.
unfoldable pub nodo_wf : ℕ → Segmento → EstadoWf → EstadoWf
nodo_wf cant_mem nodo e =
    let c =
      avanzar_wf cant_mem cant_mem nodo.dir_fisica
        (record { p_moviendo = e.p_moviendo; posicion = e.posicion; cantidad = 0 }) in
    record {
      p_moviendo = c.p_moviendo + nodo.tamanio;
      posicion = c.posicion + nodo.tamanio;
      mayor_tamanio = if ltb e.mayor_tamanio c.cantidad then c.cantidad else e.mayor_tamanio;
      p_mayor_tamanio =
          if ltb e.mayor_tamanio c.cantidad then c.p_moviendo - c.cantidad else e.p_mayor_tamanio;
    }

-- for (i = 0; (posicion != CANT_MEM) && (i < tamanioLista); i++)
unfoldable pub nodos_wf : ℕ → List Segmento → EstadoWf → EstadoWf
nodos_wf cant_mem [] e = e
nodos_wf cant_mem (nodo ∷ nodos) e =
    if e.posicion == cant_mem then e else nodos_wf cant_mem nodos (nodo_wf cant_mem nodo e)

-- The space between the last segment and the end of the memory.
unfoldable pub final_wf : ℕ → EstadoWf → EstadoWf
final_wf cant_mem e =
    if leb e.mayor_tamanio (sub32 cant_mem e.posicion)
    then record e { mayor_tamanio = sub32 cant_mem e.posicion; p_mayor_tamanio = e.p_moviendo }
    else e

abbrev pub inicio_wf : Umv → EstadoWf
inicio_wf u = record {
  p_moviendo = u.inicio_memoria;
  posicion = 0;
  mayor_tamanio = 0;
  p_mayor_tamanio = 0;
}

unfoldable pub buscar_espacio_wf : Umv → ℕ → Option ℕ
buscar_espacio_wf u tamanio =
    let e = final_wf u.cant_mem (nodos_wf u.cant_mem u.segmentos (inicio_wf u)) in
    if leb tamanio e.mayor_tamanio then some e.p_mayor_tamanio else none

-- for (...; (pMoviendo != dirFisicaNodo) && (posicion < CANT_MEM); cantidadLibre++)
unfoldable pub avanzar_ff : (fuel cant_mem dir_fisica_nodo : ℕ) → Paso → Paso
avanzar_ff zero cant_mem dir c = c
avanzar_ff (suc fuel) cant_mem dir c = elim (not (c.p_moviendo == dir) && ltb c.posicion cant_mem) [
  | true ↦ avanzar_ff fuel cant_mem dir (siguiente c)
  | false ↦ c
]

unfoldable pub final_ff : (cant_mem tamanio p_moviendo posicion : ℕ) → Option ℕ
final_ff cant_mem tamanio p posicion =
    if leb tamanio (sub32 cant_mem posicion) then some p else none

unfoldable pub nodos_ff :
    (cant_mem tamanio : ℕ) → List Segmento → (p_moviendo posicion : ℕ) → Option ℕ
nodos_ff cant_mem tamanio [] p posicion = final_ff cant_mem tamanio p posicion
nodos_ff cant_mem tamanio (nodo ∷ nodos) p posicion =
    let c =
      avanzar_ff cant_mem cant_mem nodo.dir_fisica
        (record { p_moviendo = p; posicion = posicion; cantidad = 0 }) in
    let resto =
      nodos_ff cant_mem tamanio nodos (c.p_moviendo + nodo.tamanio) (c.posicion + nodo.tamanio) in
    if posicion == cant_mem
    then final_ff cant_mem tamanio p posicion
    else if ltb c.cantidad tamanio
    then resto
    else some (c.p_moviendo - c.cantidad)

unfoldable pub buscar_espacio_ff : Umv → ℕ → Option ℕ
buscar_espacio_ff u tamanio = nodos_ff u.cant_mem tamanio u.segmentos u.inicio_memoria 0

unfoldable pub buscar_espacio : Umv → ℕ → Option ℕ
buscar_espacio u tamanio =
    if u.alg_mem == wf
    then buscar_espacio_wf u tamanio
    else if u.alg_mem == ff
    then buscar_espacio_ff u tamanio
    else none
