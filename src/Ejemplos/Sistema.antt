-- ===== src/Ejemplos/Sistema.antt =====
-- The theorems of the kernel as a whole: a configuration with a device, a semaphore and a shared
-- variable, a CPU that joins, and a program that arrives, is loaded and runs.
use tp_sistemas_operativos_u.Base.{
  inr, inl, sym, ◌∙◌, Bool-cases, ◌≢◌, ◌==◌, if◌then◌else◌, read_block, word_bytes, read_word,
  false, Bool, ◌-◌, ℕ, ◌≡◌, ◌≤◌, refl, Option, some, none, [], ◌∷◌, arith, true, Bytes,
}
use tp_sistemas_operativos_u.Mensajes.Pedidos.{
  deserializar_almacenar_bytes, deserealizar_crear_segmento, serializar_crear_segmento,
  serializar_almacenar_bytes, serializar_handshake, deserealizar_operacion, concretar_handshake,
  copiar_palabra, cambiar_proceso_activo, serializar_proceso_activo, umv_serializar,
}
use tp_sistemas_operativos_u.Umv.Operaciones.{
  almacenar_bytes, indice_para, generar_segmento, generar_en, generar_direccion_logica,
}
use tp_sistemas_operativos_u.Kernel.Sistema.{
  con_programa, tamanio_etiqueta_de, nuevo_programa, generar_pid, Metadata, Sistema, recibe,
  planifica, conecta, atiende, Alcanza, inicio, sigue, arranque, con_hilo, con_vuelta,
  recibir_programa, planificar_programas, TraeSuPid,
}
use tp_sistemas_operativos_u.Kernel.Configuracion.{
  bits, crear_dispositivos, strcpy_20, crear_semaforos, crear_variables, Configuracion,
  inicializador,
}
use tp_sistemas_operativos_u.Umv.Busqueda.{
  avanzar_ff, buscar_espacio, buscar_espacio_ff, nodos_ff, final_ff,
}
use tp_sistemas_operativos_u.Kernel.Carga.{
  poner_base, aceptar_programa, cargar_partes, cargar_parte, tamanio_de, guardar_parte,
  contenido_de, guardar_programa, conectar_umv, saludar, planificar,
}
use tp_sistemas_operativos_u.Ejemplos.Carga.{ordenar, insertar, por_insercion}
use tp_sistemas_operativos_u.Kernel.Planificador.{
  obtener_variable, sacar_de_ready, con_pcb, poner_en_ready_programas, al_final_de_ready,
}
use tp_sistemas_operativos_u.Mensajes.Respuestas.{
  deserializar_segmento_creado, serializar_segmento_creado, umv_deserializar, serializar_respuesta,
}
use tp_sistemas_operativos_u.Mensajes.{serializar_operacion, Conexion}
use tp_sistemas_operativos_u.Umv.Conexiones.Cliente.{pedir}
use tp_sistemas_operativos_u.Umv.Conexiones.{
  atender, despachar, turno_comun, turno_kernel, turno_cpu, atender_handshake,
}
use tp_sistemas_operativos_u.Commons.{ListLib, sequences}
use tp_sistemas_operativos_u.Protocolo.{terminar, Pcb, wait_kernel, MensajeCpu}
use tp_sistemas_operativos_u.Umv.{Umv, ff}
use tp_sistemas_operativos_u.Kernel.{Kernel, Programa, ℤ, pos, es_negativo}
use tp_sistemas_operativos_u.Kernel.Conexion.{
  Vuelta, esperando, atendiendo, atender_siguiente, controlar,
}
use tp_sistemas_operativos_u.Kernel.Planificador.Invariante.{IsKernel}
use tp_sistemas_operativos_u.Kernel.Sistema.Cuenta.{en_nuevos, en_ejecucion, en_colas, pid_de}
use tp_sistemas_operativos_u.Kernel.Sistema.Invariante.{apariciones, EsSistema, atendiendo-inj}
use tp_sistemas_operativos_u.Kernel.Sistema.Inicio.{EsCorto, EsConfiguracion}
use tp_sistemas_operativos_u.Kernel.Sistema.Valores.{Distintos, inicializador-valores}
use tp_sistemas_operativos_u.Kernel.Sistema.Perdida.{wait-sin_hilo}
use tp_sistemas_operativos_u.Kernel.Sistema.Sumas.{suma, uno}
use tp_sistemas_operativos_u.Kernel.Planificador.Cuentas.{en_semaforos, en_dispositivos}
use mathlib.Core.List.{map}
use tp_sistemas_operativos_u.Kernel.Sistema.Alcanzable.{Alcanza-exclusivos, Alcanza-vuelta}
use tp_sistemas_operativos_u.Ejemplos.Maquina.{diccionario}

abbrev colecciones : (A : Type 0) → ListLib A
colecciones A = sequences

abbrev atoi : Bytes → ℤ
atoi [] = pos 0
atoi (d ∷ ds) = pos (d - 48)

abbrev configuracion : Configuracion
configuracion = record {
  multiprogramacion = 3;
  id_hio = (100 ∷ []) ∷ [];
  hio = (53 ∷ []) ∷ [];
  semaforos = (97 ∷ []) ∷ [];
  valor_semaforo = (49 ∷ []) ∷ [];
  id_variable = (120 ∷ []) ∷ [];
  variable = (55 ∷ []) ∷ [];
}

abbrev sin_pcb : Pcb
sin_pcb = record {
  pid = 0;
  segmento_codigo = 0;
  segmento_stack = 0;
  cursor_stack = 0;
  indice_codigo = 0;
  indice_etiqueta = 0;
  program_counter = 0;
  tamanio_contexto = 0;
  tamanio_etiqueta = 0;
  cantidad_de_funciones = 0;
  cantidad_de_etiquetas = 0;
}

abbrev sin_programas : ℕ → Programa
sin_programas p = record { socket_prog = 0; pcb = sin_pcb }

abbrev ansisop : Bytes → Metadata
ansisop codigo = record {
  instruccion_inicio = 0;
  instrucciones_size = 1;
  instrucciones_serializado = 0 ∷ 0 ∷ 0 ∷ 0 ∷ 3 ∷ 0 ∷ 0 ∷ 0 ∷ [];
  etiquetas_size = 0;
  etiquetas = none;
  cantidad_de_funciones = 0;
  cantidad_de_etiquetas = 0;
}

abbrev servidor : Umv
servidor = record {
  inicio_memoria = 1000;
  cant_mem = 64;
  alg_mem = ff;
  segmentos = [];
  memoria = λ a. 0;
  azar = 5 ∷ 6 ∷ 7 ∷ [];
}

abbrev nueva : Conexion
nueva = record { tipo_conexion = 0; id_programa = 0 }

abbrev o_este {ℓ} : {A : Type ℓ} → A → Option A → A
o_este a none = a
o_este a (some b) = b

abbrev hay_algo {ℓ} : {A : Type ℓ} → Option A → Bool
hay_algo none = false
hay_algo (some b) = true

some-o_este {ℓ} : {A : Type ℓ} (a : A) (o : Option A) → hay_algo o ≡ true → o ≡ some (o_este a o)
some-o_este a none h = absurd (ground arith)
some-o_este a (some b) h = refl

abbrev vacio : Bytes → Option ℕ
vacio k = none

abbrev kernel_vacio : Kernel
kernel_vacio = record {
  programas = sin_programas;
  new_procesos = [];
  lista_ready = [];
  lista_exec = [];
  exit_procesos = [];
  estado_multiprogramacion = 0;
  productor_consumidor = 0;
  semaforo_exit = 0;
  nuevo_programa_sem = 0;
  list_smfrs = [];
  list_dispos = [];
  valores = λ v. 0;
}

abbrev iniciado : Kernel × (Bytes → Option ℕ)
iniciado =
    o_este (kernel_vacio, vacio) (inicializador diccionario atoi vacio configuracion sin_programas)

abbrev con_cpu : Sistema
con_cpu = con_hilo (arranque iniciado.0) 0 esperando

abbrev recibido : Sistema
recibido =
    o_este con_cpu
      (recibir_programa colecciones ansisop sin_pcb con_cpu (101 ∷ 110 ∷ 100 ∷ 10 ∷ []) 8)

abbrev cargado : Sistema × Umv
cargado =
    o_este (con_cpu, servidor)
      (planificar_programas colecciones por_insercion recibido servidor nueva 16)

abbrev atendido : Vuelta
atendido =
    o_este (kernel_vacio, esperando, [])
      (atender_siguiente colecciones (diccionario.dictionary_get iniciado.1) cargado.0.kernel)

abbrev corriendo : Sistema
corriendo = con_vuelta cargado.0 0 atendido

abbrev wait_a : MensajeCpu
wait_a = wait_kernel (record { semaforo = 97 ∷ []; pcb = record sin_pcb { pid = 1001 } })

-- The definitions that the run below goes through.
corre :
    (hay_algo (inicializador diccionario atoi vacio configuracion sin_programas) ≡ true)
    × (hay_algo (recibir_programa colecciones ansisop sin_pcb con_cpu (101 ∷ 110 ∷ 100 ∷ 10 ∷ []) 8)
        ≡ true)
    × (hay_algo (planificar_programas colecciones por_insercion recibido servidor nueva 16) ≡ true)
    × (hay_algo
          (atender_siguiente colecciones (diccionario.dictionary_get iniciado.1) cargado.0.kernel)
        ≡ true)
    × (cargado.0.hilos 0 ≡ esperando)
    × (corriendo.hilos 0 ≡ atendiendo 1001)
    × TraeSuPid corriendo.kernel 1001 wait_a
unfolding inicializador crear_dispositivos strcpy_20 crear_semaforos crear_variables
    recibir_programa nuevo_programa generar_pid con_hilo arranque planificar_programas planificar
    guardar_programa conectar_umv saludar umv_serializar atender_handshake serializar_operacion
    word_bytes serializar_handshake deserealizar_operacion read_word concretar_handshake
    copiar_palabra umv_deserializar serializar_respuesta pedir atender cambiar_proceso_activo
    serializar_proceso_activo despachar turno_comun turno_kernel turno_cpu cargar_partes
    cargar_parte tamanio_de deserealizar_crear_segmento serializar_crear_segmento generar_segmento
    buscar_espacio buscar_espacio_ff nodos_ff final_ff generar_en generar_direccion_logica
    deserializar_segmento_creado serializar_segmento_creado guardar_parte contenido_de
    serializar_almacenar_bytes read_block deserializar_almacenar_bytes almacenar_bytes indice_para
    con_programa avanzar_ff poner_base tamanio_etiqueta_de aceptar_programa ordenar con_pcb insertar
    poner_en_ready_programas atender_siguiente sacar_de_ready con_vuelta TraeSuPid al_final_de_ready
corre = (refl, refl, refl, refl, refl, refl, refl)

abbrev Corrida : Sistema → Type 0
Corrida t =
    Alcanza colecciones por_insercion (diccionario.dictionary_get iniciado.1) ansisop 16
      (arranque iniciado.0) t

corriendo-Alcanza : Corrida corriendo
corriendo-Alcanza =
    sigue
      (sigue
        (sigue (sigue inicio (conecta 0 (unfold arranque in refl) refl))
          (recibe sin_pcb (101 ∷ 110 ∷ 100 ∷ 10 ∷ []) 8 (some-o_este con_cpu _ corre.1)))
        (planifica servidor cargado.1 nueva (some-o_este (con_cpu, servidor) _ corre.2)))
      (atiende 0 atendido corre.4 (some-o_este (kernel_vacio, esperando, []) _ corre.3) refl)

configuracion-EsConfiguracion : EsConfiguracion atoi configuracion
unfolding EsCorto es_negativo
configuracion-EsConfiguracion = record {
  dispositivos = (omega arith, tt);
  retardos = omega arith;
  semaforos = (omega arith, tt);
  valores = omega arith;
  positivos = (refl, tt);
  variables = omega arith;
}

Alcanza-exclusivos_example :
    IsKernel 3 corriendo.kernel
    × ((p : ℕ) → apariciones p corriendo ≤ 1)
    × ((i j p : ℕ)
        → corriendo.hilos i ≡ atendiendo p
        → corriendo.hilos j ≡ atendiendo p
        → (i ≡ j) × (en_ejecucion p corriendo.kernel ≡ 1))
Alcanza-exclusivos_example =
    Alcanza-exclusivos diccionario atoi vacio colecciones por_insercion ansisop 16 configuracion
      sin_programas iniciado corriendo configuracion-EsConfiguracion
      (some-o_este (kernel_vacio, vacio) _ corre.0) corriendo-Alcanza

Alcanza-vuelta_example :
    (v : Vuelta) × (controlar colecciones
        (diccionario.dictionary_get iniciado.1)
        corriendo.kernel
        1001
        true
        wait_a
      ≡ some v)
    × IsKernel 3 v.0
    × ((p : ℕ) → pid_de v.0 p ≡ pid_de corriendo.kernel p)
    × ((p : ℕ) → en_colas p v.0 ≡ en_colas p corriendo.kernel)
Alcanza-vuelta_example =
    Alcanza-vuelta diccionario atoi vacio colecciones por_insercion ansisop 16 configuracion
      sin_programas iniciado corriendo 0 1001 wait_a configuracion-EsConfiguracion
      (some-o_este (kernel_vacio, vacio) _ corre.0) corriendo-Alcanza corre.5 corre.6

inicializador-valores_example :
    (r : Kernel × (Bytes → Option ℕ)) × (inicializador diccionario atoi vacio configuracion
        sin_programas
      ≡ some r)
    × EsSistema 3 (arranque r.0)
    × (map (λ d. d.sz_dispositivo) r.0.list_dispos ≡ (100 ∷ []) ∷ [])
    × (map (λ d. d.i_retardo) r.0.list_dispos ≡ 5 ∷ [])
    × (map (λ s. s.sz_semaforo) r.0.list_smfrs ≡ (97 ∷ []) ∷ [])
    × (map (λ s. s.i_semaforo) r.0.list_smfrs ≡ pos 1 ∷ [])
    × (map (obtener_variable (diccionario.dictionary_get r.1) r.0) ((120 ∷ []) ∷ []) ≡ some 7 ∷ [])
unfolding bits
inicializador-valores_example =
    inicializador-valores diccionario atoi vacio configuracion sin_programas
      configuracion-EsConfiguracion (unfold Distintos in (tt, tt)) (λ x. refl)

-- The program runs, a second one is ready, and the first waits on a name that is not configured.
abbrev dos_programas : Sistema
dos_programas = record (arranque kernel_vacio) {
  kernel = record kernel_vacio {
    programas = λ p. record { socket_prog = 0; pcb = record sin_pcb { pid = p } };
    lista_ready = 1002 ∷ [];
    lista_exec = 1001 ∷ [];
    estado_multiprogramacion = 1;
    productor_consumidor = 1;
  };
  pid_general = 1002;
  hilos = λ i. if i == 0 then atendiendo 1001 else esperando;
}

sirve_uno :
    (i p : ℕ)
    → (if i == 0 then atendiendo 1001 else esperando) ≡ atendiendo p
    → (i ≡ 0) × (p ≡ 1001)
sirve_uno i p e = elim (Bool-cases (i == 0)) [
  | inl si ↦ (ground arith, sym (atendiendo-inj 1001 p (rw si at e)))
  | inr otro ↦ absurd (ground (arith, otro, e))
]

dos_programas-EsSistema : EsSistema 3 dos_programas
unfolding arranque
dos_programas-EsSistema = record {
  colas =
      unfold en_semaforos en_dispositivos in
      record { listos = refl; salidas = refl; semaforos = tt; dispositivos = tt; nivel = refl };
  desde = omega arith;
  pids = λ p a b. refl;
  una_vez = λ p. unfold en_nuevos apariciones en_colas en_ejecucion suma uno in ground arith;
  rango = λ p h. unfold en_nuevos apariciones en_colas en_ejecucion suma uno in ground (arith, h);
  servidos =
      λ i p e. let h = sirve_uno i p e in unfold en_ejecucion suma uno in ground (arith, h.1);
  exclusivos = λ i j p e f. (sirve_uno i p e).0 ∙ sym ((sirve_uno j p f).0);
}

wait-sin_hilo_example :
    (v v' : Vuelta) × (controlar colecciones vacio dos_programas.kernel 1001 true wait_a ≡ some v)
    × (v.2 ≡ terminar ∷ [])
    × (atender_siguiente colecciones vacio (con_vuelta dos_programas 0 v).kernel ≡ some v')
    × (let t = con_vuelta (con_vuelta dos_programas 0 v) 0 v' in
        EsSistema 3 t
        × (en_ejecucion 1001 t.kernel ≡ 1)
        × (t.kernel.exit_procesos ≡ [])
        × (t.kernel.semaforo_exit ≡ 0)
        × ((j : ℕ) → t.hilos j ≢ atendiendo 1001))
wait-sin_hilo_example =
    wait-sin_hilo colecciones vacio 3 dos_programas 0 1001 true
      (record { semaforo = 97 ∷ []; pcb = record sin_pcb { pid = 1001 } }) dos_programas-EsSistema
      refl (unfold TraeSuPid in refl) refl (omega arith)
