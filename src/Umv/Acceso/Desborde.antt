-- ===== src/Umv/Acceso/Desborde.antt =====
-- The bounds test of `almacenarBytes` in umv/umvMain.c, which adds two u_int32_t.
use tp_sistemas_operativos_u.Base.{
  le→ltb, false, ℕ, ◌+◌, ◌-◌, ◌≤◌, ◌<◌, ◌≡◌, some, arith, find, take, ltb, add32, IsWord,
}
use tp_sistemas_operativos_u.Commons.{ListLib}
use tp_sistemas_operativos_u.Memoria.{escribir}
use tp_sistemas_operativos_u.Mensajes.{AlmacenarBytes, sin_contenido}
use tp_sistemas_operativos_u.Mensajes.Respuestas.{ok, umv_deserializar}
use tp_sistemas_operativos_u.Mensajes.Respuestas.Vuelta.{umv_deserializar-serializar_respuesta}
use tp_sistemas_operativos_u.Umv.{Segmento, Umv}
use tp_sistemas_operativos_u.Umv.Operaciones.{es_segmento, almacenar_bytes}

module _ (lib : ListLib Segmento) where
  -- A store into an existing segment whose offset and size add up to 2 ^ 32, or at most the segment's
  -- size more, while the segment's address and the offset reach 2 ^ 32, is answered OK, and is written
  -- `2 ^ 32 - offset` bytes before the segment.
  pub almacenar_bytes-desborde :
      (u : Umv) (id : ℕ) (st : AlmacenarBytes) (s : Segmento)
      → find (es_segmento id st.base) u.segmentos ≡ some s
      → IsWord st.offset
      → 4294967296 ≤ st.tamanio + st.offset
      → st.tamanio + st.offset ≤ 4294967296 + s.tamanio
      → s.tamanio < 4294967296
      → s.dir_fisica < 4294967296
      → 4294967296 ≤ s.dir_fisica + st.offset
      → ((almacenar_bytes lib u id st).0.memoria
          ≡ escribir u.memoria
              (s.dir_fisica - (4294967296 - st.offset))
              (take st.tamanio st.buffer))
        × (umv_deserializar (almacenar_bytes lib u id st).1
            ≡ some (record { id_operacion = 0; estructura = sin_contenido }))
  unfolding almacenar_bytes
  almacenar_bytes-desborde u id st s e w lo hi t d far =
      let dir : add32 s.dir_fisica st.offset ≡ s.dir_fisica - (4294967296 - st.offset) =
        omega arith in
      let pasa : ltb s.tamanio (add32 st.tamanio st.offset) ≡ false = le→ltb _ _ (omega arith) in
      ground (
        arith,
        lib.list_find_lem (es_segmento id st.base) u.segmentos,
        umv_deserializar-serializar_respuesta u.memoria ok tt,
      )
