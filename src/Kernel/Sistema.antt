-- ===== src/Kernel/Sistema.antt =====
-- kernel/src/kernelMain.c: the state that the configuration leaves, the programs that arrive, and the
-- threads of the kernel, interleaved in any order of their steps. What a thread does from one
-- `sem_wait` or message to the next is taken as one step, although the code holds its mutexes only
-- around each change of a list, and none around the value of a semaphore of the programs
-- (Planificador/Carrera has what another thread can do there).
pub mod Sumas
pub mod Cuenta
pub mod Movidas
pub mod Salidas
pub mod Turno
pub mod Cargada
pub mod Entrada
pub mod Invariante
pub mod Llegada
pub mod Pasos
pub mod Hilos
pub mod Inicio
pub mod Valores
pub mod Perdida
pub mod Alcanzable
use tp_sistemas_operativos_u.Base.{
  ℕ, zero, suc, ◌+◌, ◌-◌, ◌%◌, ◌^◌, ◌==◌, ltb, Bool, true, false, if◌then◌else◌, ◌>>=◌, Option,
  none, some, List, [], ◌∷◌, length, Bytes, ◌≡◌,
}
use tp_sistemas_operativos_u.Commons.{ListLib, SortLib, DictLib}
use tp_sistemas_operativos_u.Mensajes.{Conexion}
use tp_sistemas_operativos_u.Protocolo.{
  Pcb, MensajeCpu, entrada_salida_kernel, wait_kernel, notificar_por_fin_rafaga,
}
use tp_sistemas_operativos_u.Umv.{Umv}
use tp_sistemas_operativos_u.Kernel.{Kernel, Programa, Semaforo, Dispositivo, Prog, ℤ, pos, negsuc}
use tp_sistemas_operativos_u.Kernel.Planificador.{terminar_programa, fn_dispositivos}
use tp_sistemas_operativos_u.Kernel.Conexion.{
  Hilo, Vuelta, esperando, atendiendo, terminado, controlar, atender_siguiente, desconectar,
}
use tp_sistemas_operativos_u.Kernel.Carga.{NuevoProg, planificar}

-- What the kernel reads of a `t_medatada_program`; `etiquetas` is `none` for NULL.
pub record Metadata : Type 0 where
  pub instruccion_inicio : ℕ
  pub instrucciones_size : ℕ
  pub instrucciones_serializado : Bytes
  pub etiquetas_size : ℕ
  pub etiquetas : Option Bytes
  pub cantidad_de_funciones : ℕ
  pub cantidad_de_etiquetas : ℕ

-- The next number, and the counter, which is the same. Past the largest `int` C leaves it undefined.
unfoldable pub generar_pid : ℕ → Option ℕ
generar_pid pid_general = if ltb (suc pid_general) (2 ^ 31) then some (suc pid_general) else none

unfoldable pub o_vacio : Option Bytes → Bytes
o_vacio none = []
o_vacio (some e) = e

unfoldable pub tamanio_etiqueta_de : Metadata → ℕ
tamanio_etiqueta_de m = elim m.etiquetas [ none ↦ 0 | some e ↦ m.etiquetas_size ]

-- The shared state with the counter of programs, the list of those that have arrived, and what each
-- of the threads that serve a CPU, by its number, is doing.
pub record Sistema : Type 0 where
  pub kernel : Kernel
  pub pid_general : ℕ
  pub lista_de_programas : List NuevoProg
  pub hilos : ℕ → Hilo

-- The address that `malloc` returns is one that no other program has: here, the program's number. The
-- fields of the PCB that are not set are those of `basura`.
unfoldable pub nuevo_programa :
    (metadata_desde_literal : Bytes → Metadata) (basura : Pcb)
    → (codigo_ansisop : Bytes) (socket_programa pid_general : ℕ) → Option (NuevoProg × Programa × ℕ)
nuevo_programa metadata_desde_literal basura codigo_ansisop socket_programa pid_general =
    let m = metadata_desde_literal codigo_ansisop in
    (do
      pid ← generar_pid pid_general
      some (
        record {
          programa = pid;
          archivo_ansisop = codigo_ansisop;
          instrucciones_size = m.instrucciones_size;
          instrucciones_serializado = m.instrucciones_serializado;
          etiquetas = o_vacio m.etiquetas;
        },
        record {
          socket_prog = socket_programa;
          pcb = record basura {
            pid = pid;
            tamanio_etiqueta = tamanio_etiqueta_de m;
            tamanio_contexto = 0;
            program_counter = m.instruccion_inicio;
            cantidad_de_etiquetas = m.cantidad_de_etiquetas;
            cantidad_de_funciones = m.cantidad_de_funciones;
          };
        },
        pid,
      ))

unfoldable pub con_programa : Kernel → ℕ → Programa → Kernel
con_programa k programa nuevo = record k {
  programas = λ p. if p == programa then nuevo else k.programas p;
}

unfoldable pub con_hilo : Sistema → ℕ → Hilo → Sistema
con_hilo s i hilo = record s { hilos = λ j. if j == i then hilo else s.hilos j }

unfoldable pub con_vuelta : Sistema → ℕ → Vuelta → Sistema
con_vuelta s i v = con_hilo (record s { kernel = v.0 }) i v.1

module _ (lib : (A : Type 0) → ListLib A) where
  -- What `main` does with a text that has arrived from a program.
  unfoldable pub recibir_programa :
      (metadata_desde_literal : Bytes → Metadata) (basura : Pcb)
      → Sistema
      → (archivo_ansisop : Bytes) (socket_programa : ℕ) → Option Sistema
  recibir_programa metadata_desde_literal basura s archivo_ansisop socket_programa =
      if ltb 0 (length archivo_ansisop)
      then (do
        (prog, nuevo, pid_general) ←
            nuevo_programa metadata_desde_literal basura archivo_ansisop socket_programa
              s.pid_general
        some (record s {
          kernel = record (con_programa s.kernel prog.programa nuevo) {
            nuevo_programa_sem = suc s.kernel.nuevo_programa_sem;
          };
          pid_general = pid_general;
          lista_de_programas = (lib NuevoProg).list_add s.lista_de_programas prog;
        }))
      else some s

  -- One round of the long-term planner, against the memory server and a new connection to it.
  unfoldable pub planificar_programas :
      SortLib Prog → Sistema → Umv → (nueva : Conexion) → (stack : ℕ) → Option (Sistema × Umv)
  planificar_programas sort s u nueva stack =
      if ltb 0 s.kernel.nuevo_programa_sem
      then (do
        let sacado = (lib NuevoProg).list_remove 0 s.lista_de_programas
        (k, u) ←
            planificar lib sort
              (record s.kernel { nuevo_programa_sem = s.kernel.nuevo_programa_sem - 1 }) u nueva
              sacado.0 stack
        some (record s { kernel = k; lista_de_programas = sacado.1 }, u))
      else none

-- What the PCB in a message, if it has one, says of its program.
unfoldable pub TraeSuPid : Kernel → ℕ → MensajeCpu → Type 0
TraeSuPid k programa (entrada_salida_kernel e) = e.pcb.pid ≡ (k.programas programa).pcb.pid
TraeSuPid k programa (wait_kernel w) = w.pcb.pid ≡ (k.programas programa).pcb.pid
TraeSuPid k programa (notificar_por_fin_rafaga pcb) = pcb.pid ≡ (k.programas programa).pcb.pid
TraeSuPid k programa _ = Unit

-- `main` before the first program and the first CPU.
unfoldable pub arranque : Kernel → Sistema
arranque k = record {
  kernel = k;
  pid_general = 1000;
  lista_de_programas = [];
  hilos = λ i. terminado;
}

module _ (lib : (A : Type 0) → ListLib A) (sort : SortLib Prog) (dictionary_get : Bytes → Option ℕ)
    (metadata_desde_literal : Bytes → Metadata) (stack : ℕ) where
  -- A step of one of the threads: `main`, the long-term planner, the one that ends programs, that of a
  -- device, and those that serve a CPU, each of which a CPU may join and leave. The memory server
  -- may be in any state, and a CPU sends any message with its program's own number. No other thread
  -- comes into a step.
  pub data Paso (s : Sistema) (t : Sistema) : Type 0 where
    recibe :
        (basura : Pcb) (archivo : Bytes) (socket : ℕ)
        → recibir_programa lib metadata_desde_literal basura s archivo socket ≡ some t
        → Paso s t
    planifica :
        (u u' : Umv) (nueva : Conexion)
        → planificar_programas lib sort s u nueva stack ≡ some (t, u')
        → Paso s t
    termina :
        (k : Kernel) (programa : ℕ)
        → terminar_programa lib s.kernel ≡ some (k, programa)
        → t ≡ record s { kernel = k }
        → Paso s t
    vuelve :
        (k : Kernel) (nombre : Bytes)
        → fn_dispositivos lib s.kernel nombre ≡ some k
        → t ≡ record s { kernel = k }
        → Paso s t
    conecta : (i : ℕ) → s.hilos i ≡ terminado → t ≡ con_hilo s i esperando → Paso s t
    atiende :
        (i : ℕ) (v : Vuelta)
        → s.hilos i ≡ esperando
        → atender_siguiente lib dictionary_get s.kernel ≡ some v
        → t ≡ con_vuelta s i v
        → Paso s t
    recibe_de_cpu :
        (i programa : ℕ) (enviado : Bool) (m : MensajeCpu) (v : Vuelta)
        → s.hilos i ≡ atendiendo programa
        → TraeSuPid s.kernel programa m
        → controlar lib dictionary_get s.kernel programa enviado m ≡ some v
        → t ≡ con_vuelta s i v
        → Paso s t
    desconecta :
        (i programa : ℕ) (v : Vuelta)
        → s.hilos i ≡ atendiendo programa
        → desconectar lib dictionary_get s.kernel programa ≡ some v
        → t ≡ con_vuelta s i v
        → Paso s t

  pub data Alcanza (s : Sistema) : Sistema → Type 0 where
    inicio : Alcanza s s
    sigue : {t u : Sistema} → Alcanza s t → Paso t u → Alcanza s u
