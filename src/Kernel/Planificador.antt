-- ===== src/Kernel/Planificador.antt =====
-- kernel/src/pcp/PlanificadorPCP_th.c, and ponerEnReadyProgramas and terminarPrograma of
-- plp/PlanificadorPLP.c: the moves of a program between the queues. `none` is an outcome that C
-- leaves undefined (a NULL is read), or a wait on a semaphore whose value is 0. Each function is
-- one step here; in Carrera `fnLock` is in two halves.
pub mod Cuentas
pub mod Invariante
pub mod Bloqueos
pub mod Seniales
pub mod Dispositivos
pub mod Orden
pub mod Despertar
pub mod Carrera
pub mod Colas
pub mod Turnos
use tp_sistemas_operativos_u.Base.{
  ℕ, zero, suc, ◌+◌, ◌-◌, ◌≡◌, Bool, true, false, ◌&&◌, ◌==◌, ltb, if◌then◌else◌, ◌>>=◌, Option,
  none, some, List, [], ◌∷◌, Bytes, length,
}
use tp_sistemas_operativos_u.Commons.{ListLib}
use tp_sistemas_operativos_u.Protocolo.{
  Pcb, MsjWait, EntradaSalida, VariableCompartida, MensajeKernel, continuar, bloquear, terminar,
}
use tp_sistemas_operativos_u.Kernel.{
  Kernel, Programa, Semaforo, Dispositivo, ProgramaRetardo, Prog, suc_int, pred_int, es_negativo,
  no_es_positivo,
}

-- A change to the element that `list_find` returns a pointer to.
unfoldable pub cambiar_primero : {A : Type 0} → (A → Bool) → (A → A) → List A → List A
cambiar_primero p f [] = []
cambiar_primero p f (x ∷ xs) = if p x then f x ∷ xs else x ∷ cambiar_primero p f xs

-- `strcmp(a, b) == 0`
unfoldable pub mismo_texto : Bytes → Bytes → Bool
mismo_texto [] [] = true
mismo_texto [] (b ∷ bs) = false
mismo_texto (a ∷ ts) [] = false
mismo_texto (a ∷ ts) (b ∷ bs) = (a == b) && mismo_texto ts bs

-- `bfnBuscaProg`
unfoldable pub busca_prog : Kernel → ℕ → ℕ → Bool
busca_prog k pid programa = (k.programas programa).pcb.pid == pid

-- `*programa->pcb = pcb`
unfoldable pub con_pcb : Kernel → ℕ → Pcb → Kernel
con_pcb k programa pcb = record k {
  programas = λ p.
      if p == programa
      then record { socket_prog = (k.programas p).socket_prog; pcb = pcb }
      else k.programas p;
}

-- The value of a shared variable. `dictionary_get` is the dictionary of addresses that the
-- configuration has filled.
unfoldable pub obtener_variable : (Bytes → Option ℕ) → Kernel → Bytes → Option ℕ
obtener_variable dictionary_get k parametro = do
  variable_compar ← dictionary_get parametro
  some (k.valores variable_compar)

unfoldable pub asignar_variable :
    (Bytes → Option ℕ) → Kernel → VariableCompartida → Kernel × Option ℕ
asignar_variable dictionary_get k parametro = elim (dictionary_get parametro.nombre) [
  | none ↦ (k, none)
  | some v ↦ (
    record k { valores = λ w. if w == v then parametro.valor else k.valores w },
    some parametro.valor,
  )
]

unfoldable pub con_semaforo : Kernel → Bytes → (Semaforo → Semaforo) → Kernel
con_semaforo k nombre f = record k {
  list_smfrs = cambiar_primero (λ s. mismo_texto s.sz_semaforo nombre) f k.list_smfrs;
}

module _ (lib : (A : Type 0) → ListLib A) where
  unfoldable pub al_final_de_ready : Kernel → ℕ → Kernel
  al_final_de_ready k programa = record k {
    lista_ready = (lib ℕ).list_add_in_index (length k.lista_ready) programa k.lista_ready;
    productor_consumidor = suc k.productor_consumidor;
  }

  unfoldable pub mover_a_exit : Kernel → ℕ → Option Kernel
  mover_a_exit k el_programa =
      let pid = (k.programas el_programa).pcb.pid in
      let sacado = (lib ℕ).list_remove_by_condition (busca_prog k pid) k.lista_exec in
      (do
        programa_buscado ← sacado.0
        some (
            if pid == (k.programas programa_buscado).pcb.pid
            then record k {
              lista_exec = sacado.1;
              exit_procesos = (lib ℕ).list_add k.exit_procesos programa_buscado;
              estado_multiprogramacion = suc k.estado_multiprogramacion;
              semaforo_exit = suc k.semaforo_exit;
              nuevo_programa_sem = suc k.nuevo_programa_sem;
            }
            else record k { lista_exec = sacado.1 }))

  unfoldable pub recargar_ready : Kernel → Pcb → Option Kernel
  recargar_ready k el_programa =
      let sacado = (lib ℕ).list_remove_by_condition (busca_prog k el_programa.pid) k.lista_exec in
      (do
        programa_buscado ← sacado.0
        some (
            al_final_de_ready
              (con_pcb (record k { lista_exec = sacado.1 }) programa_buscado el_programa)
              programa_buscado))

  -- The program joins the queue, if the value falls below 0 while some program is in execution.
  unfoldable pub fn_lock : Kernel → MsjWait → ℕ → Kernel × Option MensajeKernel
  fn_lock k parametro programa =
      elim ((lib Semaforo).list_find (λ s. mismo_texto s.sz_semaforo parametro.semaforo)
        k.list_smfrs) [
          | none ↦ (k, none)
          | some semaf ↦
              if es_negativo (pred_int semaf.i_semaforo) && ltb 0 (length k.lista_exec)
              then (
                con_pcb
                    (con_semaforo
                      (record k {
                        lista_exec =
                            ((lib ℕ).list_remove_by_condition
                              (busca_prog k (k.programas programa).pcb.pid) k.lista_exec).1;
                      })
                      parametro.semaforo
                      (λ s. record s {
                        i_semaforo = pred_int s.i_semaforo;
                        prog_encolados = (lib ℕ).list_add s.prog_encolados programa;
                      }))
                    programa parametro.pcb,
                some bloquear,
              )
              else (
                con_semaforo k parametro.semaforo
                    (λ s. record s { i_semaforo = pred_int s.i_semaforo }),
                some continuar,
              )
        ]

  -- The first program of the queue goes to ready, if the value was below 0.
  unfoldable pub fn_unlock : Kernel → Bytes → Option (Kernel × Option MensajeKernel)
  fn_unlock k parametro =
      elim ((lib Semaforo).list_find (λ s. mismo_texto s.sz_semaforo parametro) k.list_smfrs) [
        | none ↦ some (k, none)
        | some semaf ↦
            if no_es_positivo (suc_int semaf.i_semaforo) && ltb 0 (length semaf.prog_encolados)
            then (do
              programa ← ((lib ℕ).list_remove 0 semaf.prog_encolados).0
              some (
                al_final_de_ready
                    (con_semaforo k parametro (λ s. record s {
                      i_semaforo = suc_int s.i_semaforo;
                      prog_encolados = ((lib ℕ).list_remove 0 s.prog_encolados).1;
                    }))
                    programa,
                some continuar,
              ))
            else some (
              con_semaforo k parametro (λ s. record s { i_semaforo = suc_int s.i_semaforo }),
              some continuar,
            )
      ]

  unfoldable pub mandar_a_dispositivo : Kernel → EntradaSalida → ℕ → Kernel × MensajeKernel
  mandar_a_dispositivo k parametro programa =
      elim ((lib Dispositivo).list_find (λ d. mismo_texto d.sz_dispositivo parametro.dispositivo)
        k.list_dispos) [
          | none ↦ (k, terminar)
          | some un_dispo ↦ (
            record k {
              list_dispos =
                  cambiar_primero (λ d. mismo_texto d.sz_dispositivo parametro.dispositivo)
                    (λ d. record d {
                      prog_encolados =
                          (lib ProgramaRetardo).list_add d.prog_encolados
                            (record { programa = programa; retardo = parametro.tiempo });
                      semaforo = suc d.semaforo;
                    })
                    k.list_dispos;
              lista_exec =
                  ((lib ℕ).list_remove_by_condition (busca_prog k (k.programas programa).pcb.pid)
                    k.lista_exec).1;
            },
            bloquear,
          )
        ]

  -- One round of the thread of a device: after its delay the first program of its queue is ready.
  unfoldable pub fn_dispositivos : Kernel → Bytes → Option Kernel
  fn_dispositivos k nombre =
      let p = λ (d : Dispositivo). mismo_texto d.sz_dispositivo nombre in
      (do
        un_io ← (lib Dispositivo).list_find p k.list_dispos
        programa ←
            if ltb 0 un_io.semaforo
            then ((lib ProgramaRetardo).list_remove 0 un_io.prog_encolados).0
            else none
        some (
            al_final_de_ready
              (record k {
                list_dispos =
                    cambiar_primero p
                      (λ d. record d {
                        prog_encolados = ((lib ProgramaRetardo).list_remove 0 d.prog_encolados).1;
                        semaforo = d.semaforo - 1;
                      })
                      k.list_dispos;
              })
              programa.programa))

  -- `sem_wait(&productorConsumidor)` and the move of the first ready program to execution.
  unfoldable pub sacar_de_ready : Kernel → Option (Kernel × ℕ)
  sacar_de_ready k =
      if ltb 0 k.productor_consumidor
      then (do
        programa ← ((lib ℕ).list_remove 0 k.lista_ready).0
        some (
          record k {
            lista_ready = ((lib ℕ).list_remove 0 k.lista_ready).1;
            lista_exec = (lib ℕ).list_add k.lista_exec programa;
            productor_consumidor = k.productor_consumidor - 1;
          },
          programa,
        ))
      else none

  -- Only called where `newProcesos` is not empty.
  unfoldable pub poner_en_ready_programas : Kernel → Option Kernel
  poner_en_ready_programas k =
      if ltb 0 k.estado_multiprogramacion
      then (do
        nuevo_prog ← ((lib Prog).list_remove 0 k.new_procesos).0
        some (
            al_final_de_ready
              (record k {
                estado_multiprogramacion = k.estado_multiprogramacion - 1;
                new_procesos = ((lib Prog).list_remove 0 k.new_procesos).1;
              })
              nuevo_prog.programa))
      else some k

  -- One round of the thread that ends programs: the one whose segments it then destroys.
  unfoldable pub terminar_programa : Kernel → Option (Kernel × ℕ)
  terminar_programa k =
      if ltb 0 k.semaforo_exit
      then (do
        temp_prog ← ((lib ℕ).list_remove 0 k.exit_procesos).0
        some (
          record k {
            exit_procesos = ((lib ℕ).list_remove 0 k.exit_procesos).1;
            semaforo_exit = k.semaforo_exit - 1;
          },
          temp_prog,
        ))
      else none
