-- ===== src/Kernel/Carga.antt =====
-- kernel/src/plp/PlanificadorPLP.c: a new program is loaded into the memory server, and then accepted or
-- rejected. The kernel tries to connect until it can; `nueva` is what stands in the server's new
-- `stConexion`.
pub mod Orden
pub mod Rechazo
use tp_sistemas_operativos_u.Base.{
  ℕ, ◌+◌, ◌*◌, ◌%◌, ◌^◌, ◌==◌, ◌||◌, ltb, not, Bool, true, false, if◌then◌else◌, ◌>>=◌, Option,
  none, some, List, [], ◌∷◌, ◌++◌, length, Bytes,
}
use tp_sistemas_operativos_u.Commons.{ListLib, SortLib}
use tp_sistemas_operativos_u.Mensajes.{
  Conexion, AlmacenarBytes, Respuesta, tipo_kernel, num_respuesta, TipoRespuesta, de_puntero,
}
use tp_sistemas_operativos_u.Mensajes.Pedidos.{
  Envio, handshake, almacenar, cambio_proceso_activo, crear_segmento, destruir_segmentos,
  umv_serializar,
}
use tp_sistemas_operativos_u.Mensajes.Respuestas.{umv_deserializar}
use tp_sistemas_operativos_u.Protocolo.{Pcb}
use tp_sistemas_operativos_u.Umv.{Segmento, Umv}
use tp_sistemas_operativos_u.Umv.Conexiones.{Saludo, cerrada, aceptada, atender_handshake}
use tp_sistemas_operativos_u.Umv.Conexiones.Cliente.{pedir}
use tp_sistemas_operativos_u.Kernel.{Kernel, Prog}
use tp_sistemas_operativos_u.Kernel.Planificador.{
  con_pcb, poner_en_ready_programas, terminar_programa,
}

-- `t_prog` before its program is loaded: the text, and what the parser's library has made of it, with
-- the bytes of the instructions.
pub record NuevoProg : Type 0 where
  pub programa : ℕ
  pub archivo_ansisop : Bytes
  pub instrucciones_size : ℕ
  pub instrucciones_serializado : Bytes
  pub etiquetas : Bytes

-- The four segments, in the order of `arrayDeTamano`.
pub data Parte : Type 0 where
  de_codigo de_indice de_etiquetas de_pila : Parte

-- `sizeof(t_intructions)` is 8.
unfoldable pub tamanio_de : NuevoProg → Pcb → (stack : ℕ) → Parte → ℕ
tamanio_de p pcb stack de_codigo = length p.archivo_ansisop + 1
tamanio_de p pcb stack de_indice = (8 * p.instrucciones_size) % 2 ^ 32
tamanio_de p pcb stack de_etiquetas = pcb.tamanio_etiqueta
tamanio_de p pcb stack de_pila = stack

-- What is stored in a segment; nothing in the stack.
unfoldable pub contenido_de : NuevoProg → Parte → Option Bytes
contenido_de p de_codigo = some (p.archivo_ansisop ++ 0 ∷ [])
contenido_de p de_indice = some p.instrucciones_serializado
contenido_de p de_etiquetas = some p.etiquetas
contenido_de p de_pila = none

unfoldable pub poner_base : Pcb → Parte → (base : ℕ) → Pcb
poner_base pcb de_codigo base = record pcb { segmento_codigo = base }
poner_base pcb de_indice base = record pcb { indice_codigo = base }
poner_base pcb de_etiquetas base = record pcb { indice_etiqueta = base }
poner_base pcb de_pila base = record pcb { segmento_stack = base; cursor_stack = base }

-- enviar_mensajes_a_umv(conexion, &miTipo, handshake) on a new connection.
unfoldable pub saludar : Umv → (nueva : Conexion) → Option Conexion
saludar u nueva = do
  buffer ← umv_serializar (handshake tipo_kernel)
  s ← atender_handshake u nueva buffer
  elim s [ cerrada ↦ none | aceptada c respuesta ↦ (do r ← umv_deserializar respuesta; some c) ]

unfoldable pub calcular_peso : NuevoProg → Pcb → ℕ
calcular_peso p pcb =
    (5 * pcb.cantidad_de_etiquetas + 3 * pcb.cantidad_de_funciones + p.instrucciones_size) % 2 ^ 32

-- `a <= b` of two `int`, by their bits.
unfoldable pub menor_o_igual_int : (a b : ℕ) → Bool
menor_o_igual_int a b = not (ltb ((b + 2 ^ 31) % 2 ^ 32) ((a + 2 ^ 31) % 2 ^ 32))

unfoldable pub ordenador : Prog → Prog → Bool
ordenador prog1 prog2 = menor_o_igual_int prog1.peso prog2.peso

module _ (lib : ListLib Segmento) where
  unfoldable pub destruir_segmento : Umv → (nueva : Conexion) (pid : ℕ) → Option Umv
  destruir_segmento u nueva pid = do
    c ← saludar u nueva
    (u, c, r) ← pedir lib u c (cambio_proceso_activo pid)
    (u, c, r) ← pedir lib u c destruir_segmentos
    some u

  unfoldable pub rechazar_programa : Umv → (nueva : Conexion) → Pcb → Option Umv
  rechazar_programa u nueva pcb = destruir_segmento u nueva pcb.pid

  -- The switch over the four segments, once the segment at `base` has been created.
  unfoldable pub guardar_parte :
      Umv → Conexion → NuevoProg → Parte → (tamanio base : ℕ) → Option (Umv × Conexion)
  guardar_parte u c p parte tamanio base = elim (contenido_de p parte) [
    | none ↦ some (u, c)
    | some contenido ↦ (do
      (u, c, res) ←
          pedir lib u c
            (almacenar (record { base = base; offset = 0; tamanio = tamanio; buffer = contenido }))
      some (u, c))
  ]

  -- One round of the loop; `false` is the return of -1.
  unfoldable pub cargar_parte :
      Umv → Conexion → NuevoProg → (stack : ℕ) → Pcb → Parte → Option (Umv × Conexion × Pcb × Bool)
  cargar_parte u c p stack pcb parte =
      let tamanio = tamanio_de p pcb stack parte in
      if tamanio == 0 then some (u, c, record pcb { indice_etiqueta = 1 }, true) else (do
        (u, c, respuesta) ← pedir lib u c (crear_segmento tamanio)
        (if (respuesta.id_operacion == num_respuesta TipoRespuesta.memory_overload)
              || (respuesta.id_operacion == num_respuesta TipoRespuesta.segmentation_fault)
            then some (u, c, pcb, false)
            else elim respuesta.estructura [
              | de_puntero base ↦ (do
                (u, c) ← guardar_parte u c p parte tamanio base
                some (u, c, poner_base pcb parte base, true))
              | _ ↦ none
            ]))

  unfoldable pub cargar_partes :
      Umv → Conexion → NuevoProg → (stack : ℕ) → Pcb → List Parte → Option (Umv × Pcb × Bool)
  cargar_partes u c p stack pcb [] = some (u, pcb, true)
  cargar_partes u c p stack pcb (parte ∷ partes) = do
    (u, c, pcb, sigue) ← cargar_parte u c p stack pcb parte
    elim sigue [ true ↦ cargar_partes u c p stack pcb partes | false ↦ some (u, pcb, false) ]

  unfoldable pub conectar_umv :
      Umv → (nueva : Conexion) → NuevoProg → (stack : ℕ) → Pcb → Option (Umv × Pcb × Bool)
  conectar_umv u nueva p stack pcb = do
    c ← saludar u nueva
    (u, c, r) ← pedir lib u c (cambio_proceso_activo pcb.pid)
    cargar_partes u c p stack pcb (de_codigo ∷ de_indice ∷ de_etiquetas ∷ de_pila ∷ [])

module _ (lib : (A : Type 0) → ListLib A) (sort : SortLib Prog) where
  unfoldable pub aceptar_programa : Kernel → NuevoProg → Kernel
  aceptar_programa k p =
      let prog : Prog = record {
        peso = calcular_peso p (k.programas p.programa).pcb;
        programa = p.programa;
      } in
      record k { new_procesos = sort.list_sort ordenador ((lib Prog).list_add k.new_procesos prog) }

  -- The loader works on the PCB that the program's address leads to.
  unfoldable pub guardar_programa :
      Kernel → Umv → (nueva : Conexion) → NuevoProg → (stack : ℕ) → Option (Kernel × Umv)
  guardar_programa k u nueva p stack = do
    (u, pcb, resultado) ← conectar_umv (lib Segmento) u nueva p stack (k.programas p.programa).pcb
    let k = con_pcb k p.programa pcb
    (if resultado
        then some (aceptar_programa k p, u)
        else (do u ← rechazar_programa (lib Segmento) u nueva pcb; some (k, u)))

  -- One round of `planificar_programas`, with the program that it has taken from the list of new ones.
  unfoldable pub planificar :
      Kernel → Umv → (nueva : Conexion) → Option NuevoProg → (stack : ℕ) → Option (Kernel × Umv)
  planificar k u nueva prog stack = do
    (k, u) ← elim prog [ none ↦ some (k, u) | some p ↦ guardar_programa k u nueva p stack ]
    (if ltb 0 (length k.new_procesos)
        then (do k ← poner_en_ready_programas lib k; some (k, u))
        else some (k, u))

  -- One round of `terminarPrograma`, with the segments of the program that has ended.
  unfoldable pub terminar_en_umv : Kernel → Umv → (nueva : Conexion) → Option (Kernel × Umv)
  terminar_en_umv k u nueva = do
    (k, temp_prog) ← terminar_programa lib k
    u ← destruir_segmento (lib Segmento) u nueva (k.programas temp_prog).pcb.pid
    some (k, u)
