-- ===== src/Umv/Consola.antt =====
-- umv/consola/consola.c: the line that is typed, its words, and the commands. What is printed is a
-- list of notices; `none` is an outcome that C leaves undefined, as where a NULL is read.
pub mod Palabras
pub mod Listados
pub mod Libres
pub mod Estado
use tp_sistemas_operativos_u.Umv.Consola.Palabras.{
  ConsolaLib, psz_generar_argumentos, szfn_parametro_num, ifn_parametros, bfn_is_digit_string,
  str_to_t_puntero, validar_variables, hasta_nulo,
}
use tp_sistemas_operativos_u.Base.{
  ℕ, zero, suc, ◌+◌, ◌-◌, ◌^◌, ◌==◌, ltb, leb, ◌&&◌, not, Bool, true, false, if◌then◌else◌, ◌>>=◌,
  Option, none, some, List, [], ◌∷◌, ◌++◌, length, take, Bytes,
}
use tp_sistemas_operativos_u.Commons.{ListLib}
use tp_sistemas_operativos_u.Mensajes.{
  Contenido, de_puntero, de_buffer, Respuesta, num_respuesta, TipoRespuesta,
}
use tp_sistemas_operativos_u.Mensajes.Respuestas.{consola_deserializar}
use tp_sistemas_operativos_u.Umv.{Segmento, Umv, wf, ff}
use tp_sistemas_operativos_u.Umv.Compactacion.{fn_compactar}
use tp_sistemas_operativos_u.Umv.Operaciones.{
  solicitar_bytes, almacenar_bytes, generar_segmento, eliminar_segmentos,
}
use tp_sistemas_operativos_u.Umv.Consola.Listados.{Volcado, volcar}

-- The server's state with the delay, which only the console changes.
pub record Servidor : Type 0 where
  pub umv : Umv
  pub retardo : ℕ

pub data Noticia : Type 0 where
  no_es_numerico retardo_configurado no_admite_parametros memoria_compactada : Noticia
  algoritmo_first_fit algoritmo_worst_fit algoritmo_inexistente tipo_invalido : Noticia
  no_se_entiende segmentos_eliminados archivo_guardado comando_invalido : Noticia
  buffer_escrito : Bytes → Noticia
  buffer_solicitado : Bytes → Noticia
  segmento_en : ℕ → Noticia
  texto_de_error : Bytes → Noticia
  volcado : Volcado → Noticia

unfoldable pub texto_de : Respuesta → Option Noticia
texto_de m = elim m.estructura [
  | de_buffer bytes ↦ some (texto_de_error (hasta_nulo bytes))
  | _ ↦ none
]

unfoldable pub fn_consola_retardo :
    ConsolaLib → Servidor → List Bytes → Option (Servidor × List Noticia)
fn_consola_retardo lib s ps = do
  parametro ← szfn_parametro_num ps 1
  some (
      if bfn_is_digit_string parametro
      then (record s { retardo = lib.atoi parametro }, retardo_configurado ∷ [])
      else (s, no_es_numerico ∷ []))

unfoldable pub fn_consola_compactar : Servidor → List Bytes → Servidor × List Noticia
fn_consola_compactar s ps =
    if 1 == ifn_parametros ps
    then (s, no_admite_parametros ∷ [])
    else (record s { umv = fn_compactar s.umv }, memoria_compactada ∷ [])

-- "FF" and "WF"
unfoldable pub fn_consola_algoritmo :
    ConsolaLib → Servidor → List Bytes → Option (Servidor × List Noticia)
fn_consola_algoritmo lib s ps = do
  parametro ← szfn_parametro_num ps 1
  some (
      if lib.string_equals_ignore_case parametro (70 ∷ 70 ∷ [])
      then (record s { umv = record s.umv { alg_mem = ff } }, algoritmo_first_fit ∷ [])
      else if lib.string_equals_ignore_case parametro (87 ∷ 70 ∷ [])
      then (record s { umv = record s.umv { alg_mem = wf } }, algoritmo_worst_fit ∷ [])
      else (s, algoritmo_inexistente ∷ []))

unfoldable pub fn_consola_dump : Servidor → List Bytes → Servidor × List Noticia
fn_consola_dump s ps =
    if ltb 0 (ifn_parametros ps)
    then (s, no_admite_parametros ∷ [])
    else (s, volcado (volcar s.umv) ∷ [])

module _ (lib : ConsolaLib) (listas : ListLib Segmento) where
  -- The switch over the answer to a write. The text's own end is not written over where the size is
  -- its length or less; a larger size reads and writes past it.
  unfoldable pub aviso_de_escritura : (texto : Bytes) (tamanio : ℕ) → Respuesta → Option Noticia
  aviso_de_escritura texto tamanio m =
      if m.id_operacion == num_respuesta TipoRespuesta.ok
      then (if leb tamanio (length texto) then some (buffer_escrito (take tamanio texto)) else none)
      else if m.id_operacion == num_respuesta TipoRespuesta.segmentation_fault
      then texto_de m
      else some no_se_entiende

  -- With another number of parameters the function frees what it has not set.
  unfoldable pub fn_consola_enviar_bytes : Servidor → List Bytes → Option (Servidor × List Noticia)
  fn_consola_enviar_bytes s ps = do
    valido ← validar_variables ps (1 ∷ 3 ∷ 4 ∷ [])
    let escribe = (do
      programa ← szfn_parametro_num ps 1
      base ← szfn_parametro_num ps 2
      offset ← szfn_parametro_num ps 3
      tamanio ← szfn_parametro_num ps 4
      texto ← szfn_parametro_num ps 5
      let r = almacenar_bytes listas s.umv (lib.atoi programa) (record {
        base = str_to_t_puntero lib base;
        offset = lib.atoi offset;
        tamanio = lib.atoi tamanio;
        buffer = texto ++ 0 ∷ [];
      })
      m ← consola_deserializar r.1
      a ← aviso_de_escritura texto (lib.atoi tamanio) m
      some (record s { umv = r.0 }, a ∷ []))
    (if valido
        then (if ifn_parametros ps == 5 then escribe else none)
        else some (s, tipo_invalido ∷ []))

  -- The switch over the answer to a read; one byte is added for the end of the text.
  unfoldable pub aviso_de_lectura : (tamanio : ℕ) → Respuesta → Option Noticia
  aviso_de_lectura tamanio m =
      if m.id_operacion == num_respuesta TipoRespuesta.bytes_solicitados
      then elim m.estructura [
        | de_buffer bytes ↦
            if (leb tamanio (length bytes)) && not (tamanio == 2 ^ 32 - 1)
            then some (buffer_solicitado (hasta_nulo (take tamanio bytes)))
            else none
        | _ ↦ none
      ]
      else if m.id_operacion == num_respuesta TipoRespuesta.segmentation_fault
      then texto_de m
      else some no_se_entiende

  -- Where it does not come to a request, the function frees what it has not set.
  unfoldable pub fn_consola_solic_bytes : Servidor → List Bytes → Option (Servidor × List Noticia)
  fn_consola_solic_bytes s ps =
      let lee = (do
        programa ← szfn_parametro_num ps 1
        base ← szfn_parametro_num ps 2
        offset ← szfn_parametro_num ps 3
        tamanio ← szfn_parametro_num ps 4
        m ← consola_deserializar (
            solicitar_bytes listas s.umv (lib.atoi programa) (record {
              base = str_to_t_puntero lib base;
              offset = lib.atoi offset;
              tamanio = lib.atoi tamanio;
            }))
        a ← aviso_de_lectura (lib.atoi tamanio) m
        some (s, a ∷ (if ifn_parametros ps == 5 then archivo_guardado ∷ [] else []))) in
      if ltb 3 (ifn_parametros ps) && ltb (ifn_parametros ps) 6
      then (do valido ← validar_variables ps (1 ∷ 2 ∷ 3 ∷ 4 ∷ []); (if valido then lee else none))
      else none

  unfoldable pub fn_consola_crear_segmento :
      Servidor → List Bytes → Option (Servidor × List Noticia)
  fn_consola_crear_segmento s ps = do
    pid ← szfn_parametro_num ps 1
    tamanio ← szfn_parametro_num ps 2
    (u, buffer) ← generar_segmento listas s.umv (lib.atoi pid) (lib.atoi tamanio)
    m ← consola_deserializar buffer
    a ←
        (if m.id_operacion == num_respuesta TipoRespuesta.segmento_creado
          then elim m.estructura [ de_puntero p ↦ some (segmento_en p) | _ ↦ none ]
          else if m.id_operacion == num_respuesta TipoRespuesta.memory_overload
          then texto_de m
          else some no_se_entiende)
    some (record s { umv = u }, a ∷ [])

  unfoldable pub fn_consola_destruir_segmentos :
      Servidor → List Bytes → Option (Servidor × List Noticia)
  fn_consola_destruir_segmentos s ps = do
    parametro ← szfn_parametro_num ps 1
    some (
        if bfn_is_digit_string parametro
        then (
          record s { umv = (eliminar_segmentos listas s.umv (lib.atoi parametro)).0 },
          segmentos_eliminados ∷ [],
        )
        else (s, tipo_invalido ∷ []))

  -- The chain of tests over the commands: retardo, sb, dump, compactar, alg, eb, cs and ds.
  unfoldable pub despachar_comando :
      Servidor → (comando : Bytes) → List Bytes → Option (Servidor × List Noticia)
  despachar_comando s comando ps =
      let es = lib.string_equals_ignore_case comando in
      let n = ifn_parametros ps in
      if es (114 ∷ 101 ∷ 116 ∷ 97 ∷ 114 ∷ 100 ∷ 111 ∷ []) && (n == 1)
      then fn_consola_retardo lib s ps
      else if es (115 ∷ 98 ∷ []) && not (n == 0)
      then fn_consola_solic_bytes s ps
      else if es (100 ∷ 117 ∷ 109 ∷ 112 ∷ [])
      then some (fn_consola_dump s ps)
      else if es (99 ∷ 111 ∷ 109 ∷ 112 ∷ 97 ∷ 99 ∷ 116 ∷ 97 ∷ 114 ∷ []) && (n == 0)
      then some (fn_consola_compactar s ps)
      else if es (97 ∷ 108 ∷ 103 ∷ []) && (n == 1)
      then fn_consola_algoritmo lib s ps
      else if es (101 ∷ 98 ∷ []) && not (n == 0)
      then fn_consola_enviar_bytes s ps
      else if es (99 ∷ 115 ∷ []) && (n == 2)
      then fn_consola_crear_segmento s ps
      else if es (100 ∷ 115 ∷ []) && (n == 1)
      then fn_consola_destruir_segmentos s ps
      else some (s, comando_invalido ∷ [])

  -- One round of the console's loop, with the line that `fgets` gives.
  unfoldable pub pfn_consola : Servidor → Bytes → Option (Servidor × List Noticia)
  pfn_consola s linea = do
    ps ← psz_generar_argumentos lib linea
    elim ps [ [] ↦ some (s, []) | comando ∷ resto ↦ despachar_comando s comando (comando ∷ resto) ]
