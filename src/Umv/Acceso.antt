-- ===== src/Umv/Acceso.antt =====
-- What `solicitarBytes` and `almacenarBytes` of umv/umvMain.c promise to a client, who knows the
-- memory only by its segments' views.
pub mod Especificacion
pub mod Desborde
use tp_sistemas_operativos_u.Base.{
  ◌∷◌, ltb→le, ℕ, ◌+◌, ◌-◌, ◌≤◌, ◌<◌, ◌≡◌, refl, sym, ap, ◌∙◌, List, Option, none, some, Bool, true,
  false, ltb, if◌then◌else◌, arith, length, find, take, take-append, append-nil, ◌++◌, [], Bytes,
  Bool-cases, Option-cases, inl, inr, add32,
}
use mathlib.Core.Option.{some-injective}
use tp_sistemas_operativos_u.Commons.{ListLib}
use tp_sistemas_operativos_u.Memoria.{Memoria, leer, escribir}
use tp_sistemas_operativos_u.Memoria.Copia.{length-leer}
use tp_sistemas_operativos_u.Memoria.Rebanadas.{
  sobrescribir, rebanada, leer-rebanada, rebanada-sobrescribir,
}
use tp_sistemas_operativos_u.Mensajes.{
  SolicitudBytes, AlmacenarBytes, Respuesta, sin_contenido, de_buffer,
}
use tp_sistemas_operativos_u.Mensajes.Respuestas.{
  ok, bytes_solicitados, segmentation_fault, serializar_respuesta, umv_deserializar,
  texto_segmentation_fault,
}
use tp_sistemas_operativos_u.Mensajes.Respuestas.Vuelta.{umv_deserializar-serializar_respuesta}
use tp_sistemas_operativos_u.Umv.{
  Segmento, Umv, Ordenados, IsValid, Vista, vista_de, vistas_de, vistas,
}
use tp_sistemas_operativos_u.Umv.Operaciones.{es_segmento, solicitar_bytes, almacenar_bytes}
use tp_sistemas_operativos_u.Umv.Tabla.{
  es_vista, vista_map, find-vistas, find-bounds, guardar, escribir-guardar,
}
use Especificacion.{fallo, solicitar_vista, almacenar_vista, take_all, vistas_length, vista_vuelta}

module _ (lib : ListLib Segmento) where
  -- In a valid state a request of bytes is answered from the views alone, on every branch, as long as
  -- offset and size do not add up to 2 ^ 32.
  pub solicitar_bytes-solicitar_vista :
      (u : Umv) (id : ℕ) (sol : SolicitudBytes)
      → IsValid u
      → sol.tamanio + sol.offset < 4294967296
      → umv_deserializar (solicitar_bytes lib u id sol) ≡ some (solicitar_vista (vistas u) id sol)
  unfolding solicitar_bytes solicitar_vista
  solicitar_bytes-solicitar_vista u id sol v w =
      elim (Option-cases (find (es_segmento id sol.base) u.segmentos)) [
        | inl e ↦ ground (
          arith,
          e,
          lib.list_find_lem (es_segmento id sol.base) u.segmentos,
          find-vistas u.memoria id sol.base u.segmentos,
          umv_deserializar-serializar_respuesta u.memoria segmentation_fault tt,
        )
        | inr (s, e) ↦
            let b = find-bounds (es_segmento id sol.base) _ _ u.segmentos s v.ordenados e in
            elim (Bool-cases (ltb s.tamanio (sol.tamanio + sol.offset))) [
              | inl out ↦ ground (
                arith,
                lib.list_find_lem (es_segmento id sol.base) u.segmentos,
                find-vistas u.memoria id sol.base u.segmentos,
                umv_deserializar-serializar_respuesta u.memoria segmentation_fault tt,
              )
              | inr fits ↦ ground (
                arith,
                lib.list_find_lem (es_segmento id sol.base) u.segmentos,
                find-vistas u.memoria id sol.base u.segmentos,
                umv_deserializar-serializar_respuesta u.memoria
                    (bytes_solicitados (record sol { base = s.dir_fisica })) tt,
                leer-rebanada u.memoria s.dir_fisica (add32 s.dir_fisica sol.offset) sol.offset
                    sol.tamanio s.tamanio (omega (arith, v.cabe, b, ltb→le _ _ fits))
                    (omega (arith, ltb→le _ _ fits)),
              )
            ]
      ]

  -- In a valid state a request to store, whose buffer is as long as it says and whose offset and
  -- size do not add up to 2 ^ 32, does to the views what the specification says and is answered so.
  pub almacenar_bytes-almacenar_vista :
      (u : Umv) (id : ℕ) (st : AlmacenarBytes)
      → IsValid u
      → st.tamanio + st.offset < 4294967296
      → length st.buffer ≡ st.tamanio
      → (vistas (almacenar_bytes lib u id st).0 ≡ (almacenar_vista (vistas u) id st).0)
        × (umv_deserializar (almacenar_bytes lib u id st).1
            ≡ some (almacenar_vista (vistas u) id st).1)
  unfolding almacenar_bytes almacenar_vista
  almacenar_bytes-almacenar_vista u id st v w l =
      elim (Option-cases (find (es_segmento id st.base) u.segmentos)) [
        | inl e ↦ ground (
          arith,
          lib.list_find_lem (es_segmento id st.base) u.segmentos,
          find-vistas u.memoria id st.base u.segmentos,
          umv_deserializar-serializar_respuesta u.memoria segmentation_fault tt,
        )
        | inr (s, e) ↦
            let b = find-bounds (es_segmento id st.base) _ _ u.segmentos s v.ordenados e in
            elim (Bool-cases (ltb s.tamanio (st.tamanio + st.offset))) [
              | inl out ↦ ground (
                arith,
                lib.list_find_lem (es_segmento id st.base) u.segmentos,
                find-vistas u.memoria id st.base u.segmentos,
                umv_deserializar-serializar_respuesta u.memoria segmentation_fault tt,
              )
              | inr fits ↦ ground (
                arith,
                lib.list_find_lem (es_segmento id st.base) u.segmentos,
                find-vistas u.memoria id st.base u.segmentos,
                umv_deserializar-serializar_respuesta u.memoria ok tt,
                take_all st.tamanio st.buffer l,
                escribir-guardar u.segmentos u.memoria id st.base st.offset _ _
                    (add32 s.dir_fisica st.offset) st.buffer s v.ordenados e
                    (omega (arith, v.cabe, b, ltb→le _ _ fits)) (omega (arith, ltb→le _ _ fits)),
              )
            ]
      ]

  pub almacenar_bytes-IsValid :
      (u : Umv) (id : ℕ) (st : AlmacenarBytes) → IsValid u → IsValid (almacenar_bytes lib u id st).0
  unfolding almacenar_bytes
  almacenar_bytes-IsValid u id st v = ground arith

  -- In a valid state, bytes whose storing was answered OK are read back from the same place, where
  -- offset and size do not add up to 2 ^ 32 and the buffer is as long as it says.
  pub solicitar_bytes-almacenar_bytes :
      (u : Umv) (id : ℕ) (st : AlmacenarBytes)
      → IsValid u
      → st.tamanio + st.offset < 4294967296
      → length st.buffer ≡ st.tamanio
      → umv_deserializar (almacenar_bytes lib u id st).1
        ≡ some (record { id_operacion = 0; estructura = sin_contenido })
      → umv_deserializar (
          solicitar_bytes lib
            (almacenar_bytes lib u id st).0
            id
            (record { base = st.base; offset = st.offset; tamanio = st.tamanio }))
        ≡ some (record { id_operacion = 2; estructura = de_buffer st.buffer })
  solicitar_bytes-almacenar_bytes u id st v w l done =
      let a = almacenar_bytes-almacenar_vista u id st v w l in
      solicitar_bytes-solicitar_vista _ id _ (almacenar_bytes-IsValid u id st v) w
      ∙ rw (a.0) (
          ap some (
            vista_vuelta (vistas u) id st l
              (λ x e. vistas_length u.memoria id st.base u.segmentos x e) (ground (arith, a.1))))
