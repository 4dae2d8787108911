-- ===== src/Umv/Compactacion.antt =====
-- `fnCompactar` of umv/umvMain.c: the segments are moved, in the order of the table, to the start
-- of the memory.
pub mod Correcta
use tp_sistemas_operativos_u.Base.{ℕ, ◌+◌, ◌-◌, List, [], ◌∷◌}
use tp_sistemas_operativos_u.Memoria.{Memoria, mover}
use tp_sistemas_operativos_u.Umv.{Segmento, Umv}

-- The loop over the segments, with the next free address, the memory and the rest of the table.
unfoldable pub compactar_desde : ℕ → Memoria → List Segmento → Memoria × List Segmento
compactar_desde p_compactado m [] = (m, [])
compactar_desde p_compactado m (seg ∷ segs) =
    let p = p_compactado + seg.tamanio in
    let resto = compactar_desde p (mover seg.tamanio seg.dir_fisica p_compactado m) segs in
    (resto.0, record seg { dir_fisica = p - seg.tamanio } ∷ resto.1)

unfoldable pub fn_compactar : Umv → Umv
fn_compactar u =
    let r = compactar_desde u.inicio_memoria u.memoria u.segmentos in
    record u { memoria = r.0; segmentos = r.1 }
