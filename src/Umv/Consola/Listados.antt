-- ===== src/Umv/Consola/Listados.antt =====
-- The command `dump` of umv/consola/consola.c: the segments, the free spaces and the contents.
use tp_sistemas_operativos_u.Base.{
  ℕ, suc, ◌+◌, ◌-◌, ◌==◌, ltb, if◌then◌else◌, Option, none, some, List, [], ◌∷◌, ◌++◌, Bytes,
}
use tp_sistemas_operativos_u.Memoria.{leer}
use tp_sistemas_operativos_u.Umv.{Segmento, Umv}
use tp_sistemas_operativos_u.Umv.Busqueda.{avanzar_wf}

-- The level at which a line is logged.
pub data Nivel : Type 0 where
  debug info : Nivel

-- `base` is `none` while nothing has been assigned to it.
pub record Libre : Type 0 where
  pub nivel : Nivel
  pub base : Option ℕ
  pub tamanio : ℕ

-- The variables of `fnMostrarEspaciosLibre`, with the spaces that it has logged; their number is
-- `contadorLibres`.
pub record EstadoLibres : Type 0 where
  pub p_moviendo : ℕ
  pub posicion : ℕ
  pub base : Option ℕ
  pub libres : List Libre

-- One round of the loop over the segments, which logs with `log_debug`. Its walk over the free bytes is that of the search for the
-- worst fit.
unfoldable pub nodo_libres : ℕ → Segmento → EstadoLibres → EstadoLibres
nodo_libres cant_mem nodo e =
    let c =
      avanzar_wf cant_mem cant_mem nodo.dir_fisica
        (record { p_moviendo = e.p_moviendo; posicion = e.posicion; cantidad = 0 }) in
    let base = if ltb 0 c.cantidad then some (c.p_moviendo - c.cantidad) else e.base in
    record {
      p_moviendo = c.p_moviendo + nodo.tamanio;
      posicion = c.posicion + nodo.tamanio;
      base = base;
      libres =
          if ltb 0 c.cantidad
          then e.libres ++ record { nivel = debug; base = base; tamanio = c.cantidad } ∷ []
          else e.libres;
    }

unfoldable pub nodos_libres : ℕ → List Segmento → EstadoLibres → EstadoLibres
nodos_libres cant_mem [] e = e
nodos_libres cant_mem (nodo ∷ nodos) e =
    if e.posicion == cant_mem then e else nodos_libres cant_mem nodos (nodo_libres cant_mem nodo e)

-- The last block, with `log_info`, as an `int`: below 0 where `posicion` has passed the end.
unfoldable pub final_libres : ℕ → EstadoLibres → List Libre
final_libres cant_mem e =
    if ltb e.posicion cant_mem
    then e.libres ++ record { nivel = info; base = e.base; tamanio = cant_mem - e.posicion } ∷ []
    else e.libres

unfoldable pub fn_mostrar_espacios_libre : Umv → List Libre
fn_mostrar_espacios_libre u = final_libres u.cant_mem (
    nodos_libres u.cant_mem u.segmentos
      (record { p_moviendo = u.inicio_memoria; posicion = 0; base = none; libres = [] }))

-- Its number, and what else is shown of a segment.
pub record FilaMp : Type 0 where
  pub numero : ℕ
  pub pid : ℕ
  pub base : ℕ
  pub tamanio : ℕ
  pub puntero_logico : ℕ

unfoldable pub estructuras_desde : (i : ℕ) → List Segmento → List FilaMp
estructuras_desde i [] = []
estructuras_desde i (nodo ∷ nodos) =
    record {
      numero = i;
      pid = nodo.id_programa;
      base = nodo.dir_fisica;
      tamanio = nodo.tamanio;
      puntero_logico = nodo.dir_logica;
    }
    ∷ estructuras_desde (suc i) nodos

unfoldable pub fn_mostrar_estructuras_mp : Umv → List FilaMp
fn_mostrar_estructuras_mp u = estructuras_desde 0 u.segmentos

-- The bytes are handed to the log as they are.
pub record ContenidoMp : Type 0 where
  pub numero : ℕ
  pub buffer : Bytes
  pub offset : ℕ
  pub tamanio : ℕ

unfoldable pub contenidos_desde : (i : ℕ) → Umv → List Segmento → List ContenidoMp
contenidos_desde i u [] = []
contenidos_desde i u (nodo ∷ nodos) =
    record {
      numero = i;
      buffer = leer u.memoria nodo.dir_fisica nodo.tamanio;
      offset = nodo.dir_fisica - u.inicio_memoria;
      tamanio = nodo.tamanio;
    }
    ∷ contenidos_desde (suc i) u nodos

unfoldable pub fn_mostrar_contenido_mp : Umv → List ContenidoMp
fn_mostrar_contenido_mp u = contenidos_desde 0 u u.segmentos

pub record Volcado : Type 0 where
  pub estructuras : List FilaMp
  pub libres : List Libre
  pub contenidos : List ContenidoMp

unfoldable pub volcar : Umv → Volcado
volcar u = record {
  estructuras = fn_mostrar_estructuras_mp u;
  libres = fn_mostrar_espacios_libre u;
  contenidos = fn_mostrar_contenido_mp u;
}
