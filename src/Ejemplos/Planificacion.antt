-- ===== src/Ejemplos/Planificacion.antt =====
-- The theorems of the kernel, where a program runs, one is ready, one waits for a semaphore, one for
-- a device, one has ended and one is new.
use tp_sistemas_operativos_u.Base.{arith, ◌>>=◌, ℕ, ◌≡◌, refl, [], ◌∷◌, some, none, true}
use tp_sistemas_operativos_u.Commons.{ListLib, sequences}
use tp_sistemas_operativos_u.Protocolo.{Pcb, MsjWait, EntradaSalida, entrada_salida_kernel}
use tp_sistemas_operativos_u.Kernel.{no_es_positivo, Semaforo, Kernel, Dispositivo, negsuc}
use tp_sistemas_operativos_u.Kernel.Planificador.{fn_lock, fn_unlock, mismo_texto, busca_prog}
use tp_sistemas_operativos_u.Kernel.Planificador.Cuentas.{
  EstaSaldado, EstaContado, deuda, en_semaforos, en_dispositivos,
}
use tp_sistemas_operativos_u.Kernel.Planificador.Invariante.{IsKernel, EnEjecucion}
use tp_sistemas_operativos_u.Kernel.Planificador.Turnos.{sacar_varios, sacar_varios-orden}
use tp_sistemas_operativos_u.Kernel.Conexion.{controlar}
use tp_sistemas_operativos_u.Kernel.Conexion.Invariante.{
  EsDelPrograma, TieneVuelta, controlar-IsKernel,
}
use tp_sistemas_operativos_u.Kernel.Planificador.Orden.{semaforo_de, fn_unlock-despierta}
use tp_sistemas_operativos_u.Kernel.{pos, suc_int}
use tp_sistemas_operativos_u.Protocolo.{continuar, bloquear}
use tp_sistemas_operativos_u.Kernel.Planificador.Carrera.{fn_lock_con, fn_lock_con-perdida}
use tp_sistemas_operativos_u.Kernel.Planificador.Despertar.{senales, fn_lock-senales}

abbrev colecciones : (A : Type 0) → ListLib A
colecciones A = sequences

abbrev pcb_de : ℕ → Pcb
pcb_de pid = record {
  pid = pid;
  segmento_codigo = 0;
  segmento_stack = 0;
  cursor_stack = 0;
  indice_codigo = 0;
  indice_etiqueta = 0;
  program_counter = 0;
  tamanio_contexto = 0;
  tamanio_etiqueta = 0;
  cantidad_de_funciones = 0;
  cantidad_de_etiquetas = 0;
}

abbrev impresora : Dispositivo
impresora = record {
  sz_dispositivo = 100 ∷ [];
  i_retardo = 1;
  semaforo = 1;
  prog_encolados = record { programa = 5; retardo = 3 } ∷ [];
}

abbrev nucleo : Kernel
nucleo = record {
  programas = λ p. record { socket_prog = p; pcb = pcb_de p };
  new_procesos = record { peso = 4; programa = 6 } ∷ [];
  lista_ready = 2 ∷ [];
  lista_exec = 1 ∷ [];
  exit_procesos = 3 ∷ [];
  estado_multiprogramacion = 1;
  productor_consumidor = 1;
  semaforo_exit = 1;
  nuevo_programa_sem = 0;
  list_smfrs =
      record { sz_semaforo = 97 ∷ []; i_semaforo = negsuc 0; prog_encolados = 4 ∷ [] } ∷ [];
  list_dispos = impresora ∷ [];
  valores = λ v. 0;
}

nucleo-IsKernel : IsKernel 5 nucleo
unfolding EstaSaldado EstaContado deuda en_semaforos en_dispositivos
nucleo-IsKernel = record {
  listos = refl;
  salidas = refl;
  semaforos = (refl, tt);
  dispositivos = (refl, tt);
  nivel = refl;
}

ejecuta : EnEjecucion nucleo 1
unfolding EnEjecucion busca_prog
ejecuta = refl

abbrev wait_a : MsjWait
wait_a = record { semaforo = 97 ∷ []; pcb = pcb_de 1 }

abbrev wait_b : MsjWait
wait_b = record { semaforo = 98 ∷ []; pcb = pcb_de 1 }

abbrev imprimir_5 : EntradaSalida
imprimir_5 = record { dispositivo = 100 ∷ []; tiempo = 5; pcb = pcb_de 1 }

controlar-IsKernel_example :
    TieneVuelta 5
      (controlar colecciones (λ v. none) nucleo 1 true (entrada_salida_kernel imprimir_5))
unfolding EsDelPrograma
controlar-IsKernel_example =
    controlar-IsKernel colecciones (λ v. none) 5 nucleo 1 (entrada_salida_kernel imprimir_5)
      nucleo-IsKernel ejecuta refl

abbrev semaforo_a : Semaforo
semaforo_a = record { sz_semaforo = 97 ∷ []; i_semaforo = negsuc 0; prog_encolados = 4 ∷ [] }

fn_lock-senales_example :
    ((fn_lock colecciones nucleo wait_a 1).1 ≡ some bloquear)
    × (k' : Kernel) × (senales colecciones 2 (fn_lock colecciones nucleo wait_a 1).0 (97 ∷ [])
        ≡ some k')
    × (k'.lista_exec ≡ [])
    × (k'.lista_ready ≡ 2 ∷ 4 ∷ 1 ∷ [])
    × ((k'.programas 1).pcb ≡ pcb_de 1)
    × (semaforo_de k' (97 ∷ [])
        ≡ some (record { sz_semaforo = 97 ∷ []; i_semaforo = pos 0; prog_encolados = [] }))
unfolding mismo_texto EstaSaldado deuda no_es_positivo
fn_lock-senales_example =
    fn_lock-senales colecciones nucleo wait_a 1 semaforo_a [] [] refl refl refl refl tt

fn_unlock-despierta_example :
    (k' : Kernel) × (fn_unlock colecciones nucleo (97 ∷ []) ≡ some (k', some continuar))
    × (k'.lista_ready ≡ 2 ∷ 4 ∷ [])
    × (k'.productor_consumidor ≡ 2)
    × (semaforo_de k' (97 ∷ [])
        ≡ some (record { sz_semaforo = 97 ∷ []; i_semaforo = pos 0; prog_encolados = [] }))
    × (k'.lista_exec ≡ 1 ∷ [])
    × (k'.programas ≡ nucleo.programas)
unfolding mismo_texto suc_int EstaSaldado deuda
fn_unlock-despierta_example =
    fn_unlock-despierta colecciones nucleo (97 ∷ []) semaforo_a 4 [] refl refl refl

-- The semaphore has the value 0, and two signals follow.
abbrev en_cero : Kernel
en_cero = record nucleo {
  list_smfrs = record { sz_semaforo = 97 ∷ []; i_semaforo = pos 0; prog_encolados = [] } ∷ [];
}

fn_lock_con-perdida_example :
    (fn_lock_con colecciones some en_cero wait_a 1 ≡ some (fn_lock colecciones en_cero wait_a 1))
    × (k' : Kernel) × (fn_lock_con colecciones
          (λ x. fn_unlock colecciones x (97 ∷ []) >>= λ (y, respuesta). some y)
          en_cero
          wait_a
          1
        ≡ some (k', some bloquear))
    × (k'' : Kernel) × (senales colecciones 2 k' (97 ∷ []) ≡ some k'')
    × (k''.lista_ready ≡ 2 ∷ [])
    × (semaforo_de k'' (97 ∷ [])
        ≡ some (record { sz_semaforo = 97 ∷ []; i_semaforo = pos 2; prog_encolados = 1 ∷ [] }))
unfolding mismo_texto
fn_lock_con-perdida_example =
    fn_lock_con-perdida colecciones en_cero wait_a 1
      (record { sz_semaforo = 97 ∷ []; i_semaforo = pos 0; prog_encolados = [] }) 2 refl refl refl
      (omega arith)

abbrev dos_listos : Kernel
dos_listos = record nucleo { lista_ready = 2 ∷ 8 ∷ []; productor_consumidor = 2 }

dos_listos-IsKernel : IsKernel 6 dos_listos
unfolding EstaSaldado EstaContado deuda en_semaforos en_dispositivos
dos_listos-IsKernel = record {
  listos = refl;
  salidas = refl;
  semaforos = (refl, tt);
  dispositivos = (refl, tt);
  nivel = refl;
}

sacar_varios-orden_example :
    (k' : Kernel) × (sacar_varios colecciones 2 dos_listos ≡ some (k', 2 ∷ 8 ∷ []))
    × (k'.lista_ready ≡ [])
    × (k'.lista_exec ≡ 1 ∷ 2 ∷ 8 ∷ [])
    × IsKernel 6 k'
sacar_varios-orden_example =
    sacar_varios-orden colecciones 6 (2 ∷ 8 ∷ []) [] dos_listos dos_listos-IsKernel refl
