-- ===== src/Kernel.antt =====
-- The kernel's shared state (kernelMain.h, pcp/PCP.h) and the operations of its short-term and
-- long-term schedulers. A program is known by its address in `programas`, the store of
-- `t_nuevoPrograma`, since its queue and the thread that serves it share the object. The text "exit"
-- that an operation returns is `none`.
pub mod Planificador
pub mod Conexion
pub mod Carga
pub mod Configuracion
pub mod Sistema
use tp_sistemas_operativos_u.Base.{ℕ, zero, suc, List, Bytes, Bool, true, false}
use tp_sistemas_operativos_u.Protocolo.{Pcb}

-- The `int` of a semaphore, without its bound.
pub data ℤ : Type 0 where
  pos : ℕ → ℤ
  negsuc : ℕ → ℤ

unfoldable pub suc_int : ℤ → ℤ
suc_int (pos n) = pos (suc n)
suc_int (negsuc zero) = pos zero
suc_int (negsuc (suc n)) = negsuc n

unfoldable pub pred_int : ℤ → ℤ
pred_int (pos zero) = negsuc zero
pred_int (pos (suc n)) = pos n
pred_int (negsuc n) = negsuc (suc n)

-- `i < 0` and `i <= 0`
unfoldable pub es_negativo : ℤ → Bool
es_negativo (pos n) = false
es_negativo (negsuc n) = true

unfoldable pub no_es_positivo : ℤ → Bool
no_es_positivo (pos zero) = true
no_es_positivo (pos (suc n)) = false
no_es_positivo (negsuc n) = true

-- `t_nuevoPrograma`
pub record Programa : Type 0 where
  pub socket_prog : ℕ
  pub pcb : Pcb

-- `tSemaforo`
pub record Semaforo : Type 0 where
  pub sz_semaforo : Bytes
  pub i_semaforo : ℤ
  pub prog_encolados : List ℕ

-- `pProgramaRetardo`
pub record ProgramaRetardo : Type 0 where
  pub programa : ℕ
  pub retardo : ℕ

-- `tIO`, with the value of its semaphore.
pub record Dispositivo : Type 0 where
  pub sz_dispositivo : Bytes
  pub i_retardo : ℕ
  pub semaforo : ℕ
  pub prog_encolados : List ProgramaRetardo

-- `t_prog`, with what is left of it once its program has been loaded.
pub record Prog : Type 0 where
  pub peso : ℕ
  pub programa : ℕ

-- The variables of kernelMain.h and PCP.h. A `sem_t` is its value.
pub record Kernel : Type 0 where
  pub programas : ℕ → Programa
  pub new_procesos : List Prog
  pub lista_ready : List ℕ
  pub lista_exec : List ℕ
  pub exit_procesos : List ℕ
  pub estado_multiprogramacion : ℕ
  pub productor_consumidor : ℕ
  pub semaforo_exit : ℕ
  pub nuevo_programa_sem : ℕ
  pub list_smfrs : List Semaforo
  pub list_dispos : List Dispositivo
  -- The values of the `tVarComp`, by address.
  pub valores : ℕ → ℕ
