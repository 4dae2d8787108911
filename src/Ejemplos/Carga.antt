-- ===== src/Ejemplos/Carga.antt =====
-- The theorems of the long-term scheduler, with two new programs and a memory server of two segments.
use tp_sistemas_operativos_u.Base.{
  some, ◌≡◌, refl, if◌then◌else◌, Bool, true, false, Bool-cases, inl, inr, List, [], ◌∷◌, arith,
  reject,
}
use mathlib.Core.List.{Perm}
use mathlib.Core.List.Perm
use tp_sistemas_operativos_u.Commons.{SortLib, EnOrden, sequences}
use tp_sistemas_operativos_u.Protocolo.{Pcb}
use tp_sistemas_operativos_u.Umv.{Umv, IsValid, vistas, wf}
use tp_sistemas_operativos_u.Umv.Borrado.{es_vista_de}
use tp_sistemas_operativos_u.Kernel.{Kernel, Prog}
use tp_sistemas_operativos_u.Kernel.Planificador.Cuentas.{en_semaforos, en_dispositivos}
use tp_sistemas_operativos_u.Kernel.Planificador.Invariante.{IsKernel}
use tp_sistemas_operativos_u.Kernel.Carga.{NuevoProg, aceptar_programa, destruir_segmento}
use tp_sistemas_operativos_u.Kernel.Carga.Orden.{Ascendente, aceptar_programa-Ascendente}
use tp_sistemas_operativos_u.Kernel.Carga.Rechazo.{destruir_segmento-reject}

-- A sort that meets what is asked of `list_sort`.
unfoldable pub insertar : {A : Type 0} → (A → A → Bool) → A → List A → List A
insertar c a [] = a ∷ []
insertar c a (x ∷ xs) = let r = insertar c a xs in if c a x then a ∷ x ∷ xs else x ∷ r

unfoldable pub ordenar : {A : Type 0} → (A → A → Bool) → List A → List A
ordenar c [] = []
ordenar c (x ∷ xs) = insertar c x (ordenar c xs)

insertar-Perm :
    {A : Type 0} (c : A → A → Bool) (a : A) (xs : List A) → Perm (insertar c a xs) (a ∷ xs)
unfolding insertar
insertar-Perm c a [] = Perm.refl (a ∷ [])
insertar-Perm c a (x ∷ xs) = elim (Bool-cases (c a x)) [
  | inl si ↦ rw si (Perm.refl (a ∷ x ∷ xs))
  | inr otro ↦ rw otro (Perm.trans (Perm.cons x (insertar-Perm c a xs)) (Perm.swap a x xs))
]

pub ordenar-Perm : {A : Type 0} (c : A → A → Bool) (xs : List A) → Perm (ordenar c xs) xs
unfolding ordenar
ordenar-Perm c [] = Perm.refl []
ordenar-Perm c (x ∷ xs) =
    Perm.trans (insertar-Perm c x (ordenar c xs)) (Perm.cons x (ordenar-Perm c xs))

detras-EnOrden :
    {A : Type 0} (c : A → A → Bool) (a x : A) (xs : List A)
    → ((x y : A) → c x y ≡ false → c y x ≡ true)
    → c x a ≡ true
    → EnOrden c (x ∷ xs)
    → EnOrden c (x ∷ insertar c a xs)
unfolding EnOrden insertar
detras-EnOrden c a x [] t h o = (h, tt)
detras-EnOrden c a x (y ∷ ys) t h o = elim (Bool-cases (c a y)) [
  | inl si ↦ rw si (h, (si, o.1))
  | inr otro ↦ rw otro (o.0, detras-EnOrden c a y ys t (t a y otro) o.1)
]

insertar-EnOrden :
    {A : Type 0} (c : A → A → Bool) (a : A) (xs : List A)
    → ((x y : A) → c x y ≡ false → c y x ≡ true)
    → EnOrden c xs
    → EnOrden c (insertar c a xs)
unfolding EnOrden insertar
insertar-EnOrden c a [] t o = tt
insertar-EnOrden c a (x ∷ xs) t o = elim (Bool-cases (c a x)) [
  | inl si ↦ rw si (si, o)
  | inr otro ↦ rw otro (detras-EnOrden c a x xs t (t a x otro) o)
]

pub ordenar-EnOrden :
    {A : Type 0} (c : A → A → Bool) (xs : List A)
    → ((x y : A) → c x y ≡ false → c y x ≡ true)
    → EnOrden c (ordenar c xs)
unfolding ordenar EnOrden
ordenar-EnOrden c [] t = tt
ordenar-EnOrden c (x ∷ xs) t = insertar-EnOrden c x (ordenar c xs) t (ordenar-EnOrden c xs t)

abbrev pub por_insercion : SortLib Prog
por_insercion = record {
  list_sort = ordenar;
  list_sort-Perm = ordenar-Perm;
  list_sort-EnOrden = λ c xs t r. ordenar-EnOrden c xs t;
}

abbrev pcb_nueve : Pcb
pcb_nueve = record {
  pid = 9;
  segmento_codigo = 0;
  segmento_stack = 0;
  cursor_stack = 0;
  indice_codigo = 0;
  indice_etiqueta = 0;
  program_counter = 0;
  tamanio_contexto = 0;
  tamanio_etiqueta = 0;
  cantidad_de_funciones = 1;
  cantidad_de_etiquetas = 2;
}

-- Its weight is 16.
abbrev nuevo : NuevoProg
nuevo = record {
  programa = 6;
  archivo_ansisop = 65 ∷ [];
  instrucciones_size = 3;
  instrucciones_serializado = [];
  etiquetas = [];
}

abbrev nucleo_nuevo : Kernel
nucleo_nuevo = record {
  programas = λ p. record { socket_prog = p; pcb = pcb_nueve };
  new_procesos = record { peso = 4; programa = 5 } ∷ record { peso = 20; programa = 7 } ∷ [];
  lista_ready = [];
  lista_exec = [];
  exit_procesos = [];
  estado_multiprogramacion = 2;
  productor_consumidor = 0;
  semaforo_exit = 0;
  nuevo_programa_sem = 1;
  list_smfrs = [];
  list_dispos = [];
  valores = λ v. 0;
}

nucleo_nuevo-IsKernel : IsKernel 2 nucleo_nuevo
unfolding en_semaforos en_dispositivos
nucleo_nuevo-IsKernel = record {
  listos = refl;
  salidas = refl;
  semaforos = tt;
  dispositivos = tt;
  nivel = refl;
}

aceptar_programa-Ascendente_example :
    Ascendente (aceptar_programa (λ A. sequences) por_insercion nucleo_nuevo nuevo).new_procesos
    × Perm (aceptar_programa (λ A. sequences) por_insercion nucleo_nuevo nuevo).new_procesos (
        record { peso = 16; programa = 6 }
        ∷ record { peso = 4; programa = 5 }
        ∷ record { peso = 20; programa = 7 }
        ∷ [])
    × IsKernel 2 (aceptar_programa (λ A. sequences) por_insercion nucleo_nuevo nuevo)
aceptar_programa-Ascendente_example =
    aceptar_programa-Ascendente (λ A. sequences) por_insercion 2 nucleo_nuevo nuevo 16
      nucleo_nuevo-IsKernel (omega arith) refl (omega arith)

abbrev memoria_dos : Umv
memoria_dos = record {
  inicio_memoria = 1000;
  cant_mem = 64;
  alg_mem = wf;
  segmentos =
      record { id_programa = 7; tamanio = 16; dir_logica = 55; dir_fisica = 1000 }
      ∷ record { id_programa = 9; tamanio = 8; dir_logica = 99; dir_fisica = 1024 }
      ∷ [];
  memoria = λ a. 0;
  azar = [];
}

memoria_dos-IsValid : IsValid memoria_dos
memoria_dos-IsValid = record {
  no_nulo = omega arith;
  cabe = omega arith;
  con_signo = omega arith;
  ordenados = omega arith;
}

destruir_segmento-reject_example :
    (u : Umv) × (destruir_segmento sequences memoria_dos
        (record { tipo_conexion = 3; id_programa = 4 })
        9
      ≡ some u)
    × (vistas u ≡ reject (es_vista_de 9) (vistas memoria_dos))
    × IsValid u
destruir_segmento-reject_example =
    destruir_segmento-reject sequences memoria_dos (record { tipo_conexion = 3; id_programa = 4 }) 9
      memoria_dos-IsValid (omega arith)
