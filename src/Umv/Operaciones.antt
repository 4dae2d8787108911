-- ===== src/Umv/Operaciones.antt =====
-- The operations of umv/umvMain.c on the table of segments. Each returns the buffer of its answer.
-- `solicitarBytes` and `almacenarBytes` also leave the physical address in the request's base, which
-- only the console prints.

use tp_sistemas_operativos_u.Base.{
  ℕ, zero, suc, List, [], ◌∷◌, Option, none, some, Bool, true, false, ◌&&◌, ◌==◌, ltb,
  if◌then◌else◌, ◌>>=◌, Bytes, add32, length, take,
}
use tp_sistemas_operativos_u.Commons.{ListLib}
use tp_sistemas_operativos_u.Memoria.{escribir}
use tp_sistemas_operativos_u.Mensajes.{SolicitudBytes, AlmacenarBytes}
use tp_sistemas_operativos_u.Mensajes.Respuestas.{
  ok, segmento_creado, bytes_solicitados, segmentation_fault, memory_overload, serializar_respuesta,
}
use tp_sistemas_operativos_u.Umv.{Segmento, Umv}
use tp_sistemas_operativos_u.Umv.Busqueda.{buscar_espacio}
use tp_sistemas_operativos_u.Umv.Compactacion.{fn_compactar}

-- `bfnSegmento` of `solicitarBytes` and `almacenarBytes`.
abbrev pub es_segmento : (id_prog base : ℕ) → Segmento → Bool
es_segmento id_prog base s = (s.id_programa == id_prog) && (s.dir_logica == base)

-- `bfnSegmento` of `eliminarSegmentos`.
abbrev pub es_de_programa : ℕ → Segmento → Bool
es_de_programa id_programa s = s.id_programa == id_programa

-- `bfnTieneLaDireccion`
abbrev pub tiene_la_direccion : ℕ → Segmento → Bool
tiene_la_direccion nue_dir s = s.dir_logica == nue_dir

-- The place in the table of a segment at `dir_fisica`.
unfoldable pub indice_para : ℕ → List Segmento → ℕ
indice_para dir_fisica [] = 0
indice_para dir_fisica (s ∷ ss) =
    if ltb dir_fisica s.dir_fisica then 0 else suc (indice_para dir_fisica ss)

module _ (lib : ListLib Segmento) where
  unfoldable pub solicitar_bytes : Umv → (id_prog : ℕ) → SolicitudBytes → Bytes
  solicitar_bytes u id_prog solicitud =
      elim (lib.list_find (es_segmento id_prog solicitud.base) u.segmentos) [
        | none ↦ serializar_respuesta u.memoria segmentation_fault
        | some s ↦
            if ltb s.tamanio (add32 solicitud.tamanio solicitud.offset)
            then serializar_respuesta u.memoria segmentation_fault
            else serializar_respuesta u.memoria
                (bytes_solicitados (record solicitud { base = s.dir_fisica }))
      ]

  unfoldable pub almacenar_bytes : Umv → (id_prog : ℕ) → AlmacenarBytes → Umv × Bytes
  almacenar_bytes u id_prog st = elim (lib.list_find (es_segmento id_prog st.base) u.segmentos) [
    | none ↦ (u, serializar_respuesta u.memoria segmentation_fault)
    | some s ↦
        if ltb s.tamanio (add32 st.tamanio st.offset)
        then (u, serializar_respuesta u.memoria segmentation_fault)
        else (
          record u {
            memoria = escribir u.memoria (add32 s.dir_fisica st.offset) (take st.tamanio st.buffer);
          },
          serializar_respuesta u.memoria ok,
        )
  ]

  -- Draws until no segment has the address; `none` where the values of `random()` run out.
  unfoldable pub generar_direccion_logica : List ℕ → List Segmento → Option (ℕ × List ℕ)
  generar_direccion_logica [] segmentos = none
  generar_direccion_logica (nue_dir ∷ azar) segmentos =
      if lib.list_any_satisfy (tiene_la_direccion nue_dir) segmentos
      then generar_direccion_logica azar segmentos
      else some (nue_dir, azar)

  -- `generarSegmento` from the last search on. Its test `tamanio == 0` is of the pointer to the size,
  -- which no caller leaves null.
  unfoldable pub generar_en : Umv → (pid tamanio : ℕ) → Option ℕ → Option (Umv × Bytes)
  generar_en u pid tamanio none = some (u, serializar_respuesta u.memoria memory_overload)
  generar_en u pid tamanio (some p_fisica) = do
    (dir_logica, azar) ← generar_direccion_logica u.azar u.segmentos
    some (
      record u {
        segmentos =
            lib.list_add_in_index (indice_para p_fisica u.segmentos)
              (record {
                id_programa = pid;
                tamanio = tamanio;
                dir_logica = dir_logica;
                dir_fisica = p_fisica;
              })
              u.segmentos;
        azar = azar;
      },
      serializar_respuesta u.memoria (segmento_creado dir_logica),
    )

  -- Where no space is found the memory is compacted and searched once more.
  unfoldable pub generar_segmento : Umv → (pid tamanio : ℕ) → Option (Umv × Bytes)
  generar_segmento u pid tamanio = elim (buscar_espacio u tamanio) [
    | some p ↦ generar_en u pid tamanio (some p)
    | none ↦ generar_en (fn_compactar u) pid tamanio (buscar_espacio (fn_compactar u) tamanio)
  ]

  -- while (list_any_satisfy(...)) list_remove_and_destroy_by_condition(...); each round removes a
  -- segment, so the length of the table is fuel enough.
  unfoldable pub bucle_eliminar : ℕ → ℕ → List Segmento → List Segmento
  bucle_eliminar zero id_programa segmentos = segmentos
  bucle_eliminar (suc fuel) id_programa segmentos =
      elim (lib.list_any_satisfy (es_de_programa id_programa) segmentos) [
        | true ↦
            bucle_eliminar fuel id_programa
              (lib.list_remove_and_destroy_by_condition (es_de_programa id_programa) segmentos)
        | false ↦ segmentos
      ]

  unfoldable pub eliminar_segmentos : Umv → ℕ → Umv × Bytes
  unfolding bucle_eliminar
  eliminar_segmentos u id_programa = (
    record u { segmentos = bucle_eliminar (length u.segmentos) id_programa u.segmentos },
    serializar_respuesta u.memoria ok,
  )
