-- ===== src/Kernel/Sistema/Inicio.antt =====
-- `inicializador` of kernel/src/kernelMain.c: what the configuration leaves.
use tp_sistemas_operativos_u.Base.{
  ℕ, suc, ◌≡◌, ◌≤◌, ◌<◌, refl, ◌==◌, if◌then◌else◌, false, some, List, [], ◌∷◌, length, Bytes, All,
  arith, lt→ltb,
}
use tp_sistemas_operativos_u.Commons.{DictLib}
use tp_sistemas_operativos_u.Kernel.{
  Kernel, Programa, Semaforo, Dispositivo, ℤ, pos, negsuc, es_negativo,
}
use tp_sistemas_operativos_u.Kernel.Planificador.Cuentas.{
  en_semaforos, en_dispositivos, deuda, EstaSaldado, EstaContado,
}
use tp_sistemas_operativos_u.Kernel.Planificador.Invariante.{IsKernel}
use tp_sistemas_operativos_u.Kernel.Sistema.{arranque}
use tp_sistemas_operativos_u.Kernel.Configuracion.{
  Configuracion, bits, strcpy_20, crear_dispositivos, crear_semaforos, crear_variables,
  inicializador,
}
use tp_sistemas_operativos_u.Kernel.Sistema.Sumas.{suma}
use tp_sistemas_operativos_u.Kernel.Sistema.Cuenta.{
  en_semaforo, en_dispositivo, en_nuevos, en_ejecucion, en_colas,
}
use tp_sistemas_operativos_u.Kernel.Sistema.Invariante.{apariciones, EsSistema}

-- A name that fits into a `char[20]`.
unfoldable pub EsCorto : Bytes → Type 0
EsCorto texto = length texto < 20

pub strcpy_20-EsCorto : (texto : Bytes) → EsCorto texto → strcpy_20 texto ≡ some texto
unfolding strcpy_20 EsCorto
strcpy_20-EsCorto texto h = rw (lt→ltb (length texto) 20 h) refl

deuda-no_negativo : (i : ℤ) → es_negativo i ≡ false → deuda i ≡ 0
unfolding deuda es_negativo
deuda-no_negativo (pos n) h = refl
deuda-no_negativo (negsuc n) h = absurd (ground (arith, h))

-- What the configuration must give: names that fit, a value for each name, and no semaphore with a
-- value below 0.
pub record EsConfiguracion (atoi : Bytes → ℤ) (c : Configuracion) : Type 0 where
  pub dispositivos : All EsCorto c.id_hio
  pub retardos : length c.id_hio ≤ length c.hio
  pub semaforos : All EsCorto c.semaforos
  pub valores : length c.semaforos ≤ length c.valor_semaforo
  pub positivos : All (λ v. es_negativo (atoi v) ≡ false) c.valor_semaforo
  pub variables : length c.id_variable ≤ length c.variable

pub crear_dispositivos-EstaContado :
    (atoi : Bytes → ℤ) (ds rs : List Bytes)
    → All EsCorto ds
    → length ds ≤ length rs
    → (l : List Dispositivo) × (crear_dispositivos atoi ds rs ≡ some l)
      × All EstaContado l
      × (en_dispositivos l ≡ 0)
      × ((p : ℕ) → suma (en_dispositivo p) l ≡ 0)
unfolding crear_dispositivos en_dispositivos en_dispositivo suma EstaContado
crear_dispositivos-EstaContado atoi [] rs h g = ([], refl, tt, refl, λ p. refl)
crear_dispositivos-EstaContado atoi (d ∷ ds) [] h g = absurd (omega (arith, g))
crear_dispositivos-EstaContado atoi (d ∷ ds) (r ∷ rs) h g =
    let o = crear_dispositivos-EstaContado atoi ds rs h.1 (omega (arith, g)) in
    let uno : Dispositivo = record {
      sz_dispositivo = d;
      i_retardo = bits (atoi r);
      semaforo = 0;
      prog_encolados = [];
    } in
    (
      uno ∷ o.0,
      rw (strcpy_20-EsCorto d h.0, o.1) refl,
      (refl, o.2),
      omega (arith, o.3),
      λ p. let e = o.4 p in omega (arith, e),
    )

pub crear_semaforos-EstaSaldado :
    (atoi : Bytes → ℤ) (ss vs : List Bytes)
    → All EsCorto ss
    → length ss ≤ length vs
    → All (λ v. es_negativo (atoi v) ≡ false) vs
    → (l : List Semaforo) × (crear_semaforos atoi ss vs ≡ some l)
      × All EstaSaldado l
      × (en_semaforos l ≡ 0)
      × ((p : ℕ) → suma (en_semaforo p) l ≡ 0)
unfolding crear_semaforos en_semaforos en_semaforo suma EstaSaldado
crear_semaforos-EstaSaldado atoi [] vs h g n = ([], refl, tt, refl, λ p. refl)
crear_semaforos-EstaSaldado atoi (s ∷ ss) [] h g n = absurd (omega (arith, g))
crear_semaforos-EstaSaldado atoi (s ∷ ss) (v ∷ vs) h g n =
    let o = crear_semaforos-EstaSaldado atoi ss vs h.1 (omega (arith, g)) n.1 in
    let uno : Semaforo = record { sz_semaforo = s; i_semaforo = atoi v; prog_encolados = [] } in
    (
      uno ∷ o.0,
      rw (strcpy_20-EsCorto s h.0, o.1) refl,
      (deuda-no_negativo (atoi v) n.0, o.2),
      omega (arith, o.3),
      λ p. let e = o.4 p in omega (arith, e),
    )

arranque-EsSistema :
    (n : ℕ) (k : Kernel) → IsKernel n k → ((p : ℕ) → en_colas p k ≡ 0) → EsSistema n (arranque k)
arranque-EsSistema n k i nada = record {
  colas = unfold arranque in i;
  desde = unfold arranque in omega arith;
  pids = λ p a b. absurd (unfold arranque in omega (arith, a, b));
  una_vez = λ p. omega (arith, ninguna p);
  rango = λ p a. absurd (omega (arith, a, ninguna p));
  servidos = λ i p e. absurd (unfold arranque in ground (arith, e));
  exclusivos = λ i j p e f. absurd (unfold arranque in ground (arith, e));
}
  where
    ninguna : (p : ℕ) → apariciones p (arranque k) ≡ 0
    ninguna p = let e = nada p in unfold apariciones arranque suma in omega (arith, e)

module _ {D : Type 0} (dict : DictLib D) where
  crear_variables-hay :
      (atoi : Bytes → ℤ) (i : ℕ) (xs vs : List Bytes) (d : D) (valores : ℕ → ℕ)
      → length xs ≤ length vs
      → (r : D × (ℕ → ℕ)) × (crear_variables dict atoi i xs vs d valores ≡ some r)
  unfolding crear_variables
  crear_variables-hay atoi i [] vs d valores g = ((d, valores), refl)
  crear_variables-hay atoi i (x ∷ xs) [] d valores g = absurd (omega (arith, g))
  crear_variables-hay atoi i (x ∷ xs) (v ∷ vs) d valores g =
      crear_variables-hay atoi (suc i) xs vs (dict.dictionary_put d x i)
        (λ w. if w == i then bits (atoi v) else valores w) (omega (arith, g))

  -- Where every name fits into its field and has a value, and no semaphore starts below 0, the
  -- configuration gives a state, and `main` starts from it with the invariant of the system, at the
  -- level of multiprogramming of the configuration.
  pub inicializador-EsSistema :
      (atoi : Bytes → ℤ) (vacio : D) (c : Configuracion) (programas : ℕ → Programa)
      → EsConfiguracion atoi c
      → (r : Kernel × D) × (inicializador dict atoi vacio c programas ≡ some r)
        × EsSistema c.multiprogramacion (arranque r.0)
  unfolding inicializador
  inicializador-EsSistema atoi vacio c programas h =
      let ds = crear_dispositivos-EstaContado atoi c.id_hio c.hio h.dispositivos h.retardos in
      let ss =
        crear_semaforos-EstaSaldado atoi c.semaforos c.valor_semaforo h.semaforos h.valores
          h.positivos in
      let vs = crear_variables-hay atoi 0 c.id_variable c.variable vacio (λ w. 0) h.variables in
      let k : Kernel = record {
        programas = programas;
        new_procesos = [];
        lista_ready = [];
        lista_exec = [];
        exit_procesos = [];
        estado_multiprogramacion = c.multiprogramacion;
        productor_consumidor = 0;
        semaforo_exit = 0;
        nuevo_programa_sem = 0;
        list_smfrs = ss.0;
        list_dispos = ds.0;
        valores = vs.0.1;
      } in
      (
        (k, vs.0.0),
        rw (ds.1, ss.1, vs.1) refl,
        arranque-EsSistema c.multiprogramacion k
            (record {
              listos = refl;
              salidas = refl;
              semaforos = ss.2;
              dispositivos = ds.2;
              nivel = omega (arith, ss.3, ds.3);
            })
            (λ p.
              let a = ss.4 p in
              let b = ds.4 p in unfold en_colas en_nuevos en_ejecucion suma in omega (arith, a, b)),
      )
