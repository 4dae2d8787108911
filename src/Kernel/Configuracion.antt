-- ===== src/Kernel/Configuracion.antt =====
-- `inicializador` of kernel/src/kernelMain.c: the state that the configuration leaves.
use tp_sistemas_operativos_u.Base.{
  ℕ, suc, ◌-◌, ◌%◌, ◌^◌, ◌==◌, ltb, if◌then◌else◌, ◌>>=◌, Option, none, some, List, [], ◌∷◌, length,
  Bytes,
}
use tp_sistemas_operativos_u.Commons.{DictLib}
use tp_sistemas_operativos_u.Kernel.{Kernel, Programa, Semaforo, Dispositivo, ℤ, pos, negsuc}

-- What `config_get_int_value` and `config_get_array_value` return for each key. A level of
-- multiprogramming below 0 is left out.
pub record Configuracion : Type 0 where
  pub multiprogramacion : ℕ
  pub id_hio : List Bytes
  pub hio : List Bytes
  pub semaforos : List Bytes
  pub valor_semaforo : List Bytes
  pub id_variable : List Bytes
  pub variable : List Bytes

-- The bits of an `int`.
unfoldable pub bits : ℤ → ℕ
bits (pos n) = n % 2 ^ 32
bits (negsuc n) = 2 ^ 32 - 1 - n % 2 ^ 32

-- `strcpy` into a `char[20]`; a longer text is written past its end.
unfoldable pub strcpy_20 : Bytes → Option Bytes
strcpy_20 texto = if ltb (length texto) 20 then some texto else none

-- The rounds of the loop over the devices. A delay that is missing is a NULL that `atoi` reads.
unfoldable pub crear_dispositivos :
    (atoi : Bytes → ℤ) → (io retardo_io : List Bytes) → Option (List Dispositivo)
crear_dispositivos atoi [] rs = some []
crear_dispositivos atoi (d ∷ ds) [] = none
crear_dispositivos atoi (d ∷ ds) (r ∷ rs) = do
  sz_dispositivo ← strcpy_20 d
  otros ← crear_dispositivos atoi ds rs
  some (
      record {
        sz_dispositivo = sz_dispositivo;
        i_retardo = bits (atoi r);
        semaforo = 0;
        prog_encolados = [];
      }
      ∷ otros)

unfoldable pub crear_semaforos :
    (atoi : Bytes → ℤ) → (semaforos_temp valor_semaforos : List Bytes) → Option (List Semaforo)
crear_semaforos atoi [] vs = some []
crear_semaforos atoi (s ∷ ss) [] = none
crear_semaforos atoi (s ∷ ss) (v ∷ vs) = do
  sz_semaforo ← strcpy_20 s
  otros ← crear_semaforos atoi ss vs
  some (record { sz_semaforo = sz_semaforo; i_semaforo = atoi v; prog_encolados = [] } ∷ otros)

module _ {D : Type 0} (dict : DictLib D) where
  -- The rounds of the loop over the shared variables, from number `i` on: the dictionary, and the
  -- values by address. The address of a `tVarComp` is its number.
  unfoldable pub crear_variables :
      (atoi : Bytes → ℤ) (i : ℕ)
      → (variables valor_variables : List Bytes) → D
      → (ℕ → ℕ)
      → Option (D × (ℕ → ℕ))
  crear_variables atoi i [] vs d valores = some (d, valores)
  crear_variables atoi i (x ∷ xs) [] d valores = none
  crear_variables atoi i (x ∷ xs) (v ∷ vs) d valores =
      crear_variables atoi (suc i) xs vs (dict.dictionary_put d x i)
        (λ w. if w == i then bits (atoi v) else valores w)

  -- With the lists that the threads of the planners create, and `programas` as `malloc` leaves them.
  unfoldable pub inicializador :
      (atoi : Bytes → ℤ) (vacio : D)
      → Configuracion
      → (programas : ℕ → Programa) → Option (Kernel × D)
  inicializador atoi vacio c programas = do
    list_dispos ← crear_dispositivos atoi c.id_hio c.hio
    list_smfrs ← crear_semaforos atoi c.semaforos c.valor_semaforo
    (variables_compartidas, valores) ←
        crear_variables atoi 0 c.id_variable c.variable vacio (λ w. 0)
    some (
      record {
        programas = programas;
        new_procesos = [];
        lista_ready = [];
        lista_exec = [];
        exit_procesos = [];
        estado_multiprogramacion = c.multiprogramacion;
        productor_consumidor = 0;
        semaforo_exit = 0;
        nuevo_programa_sem = 0;
        list_smfrs = list_smfrs;
        list_dispos = list_dispos;
        valores = valores;
      },
      variables_compartidas,
    )
