-- ===== src/Ejemplos/Maquina.antt =====
-- A program with one variable, a stack of 40 bytes and two lines of code, and the CPU that executes it.
use tp_sistemas_operativos_u.Base.{
  ℕ, ◌≡◌, ◌≢◌, refl, ◌==◌, ltb, if◌then◌else◌, true, false, Bool-cases, inl, inr, Option, none,
  some, [], ◌∷◌, arith, Bytes,
}
use tp_sistemas_operativos_u.Commons.{sequences, ListLib, DictLib}
use tp_sistemas_operativos_u.Memoria.{leer}
use tp_sistemas_operativos_u.Protocolo.{Pcb}
use tp_sistemas_operativos_u.Mensajes.{tipo_cpu}
use tp_sistemas_operativos_u.Umv.{Segmento, Umv, IsValid, ff}
use tp_sistemas_operativos_u.Kernel.Planificador.{mismo_texto}
use tp_sistemas_operativos_u.Cpu.{Cpu}
use tp_sistemas_operativos_u.Cpu.Memoria.{nombre_variable, obtener_posicion_variable}
use tp_sistemas_operativos_u.Cpu.Pila.{EnPila}
use tp_sistemas_operativos_u.Cpu.Contexto.{direccion, contiene, SinRepetir}
use tp_sistemas_operativos_u.Cpu.Marco.{Marco}

pub mismo_texto_self : (k : Bytes) → mismo_texto k k ≡ true
unfolding mismo_texto
mismo_texto_self [] = refl
mismo_texto_self (b ∷ k) = ground (arith, mismo_texto_self k)

mismo_texto_eq : (k j : Bytes) → mismo_texto k j ≡ true → k ≡ j
unfolding mismo_texto
mismo_texto_eq [] [] e = refl
mismo_texto_eq [] (b ∷ j) e = absurd (ground arith)
mismo_texto_eq (a ∷ k) [] e = absurd (ground arith)
mismo_texto_eq (a ∷ k) (b ∷ j) e =
    let h : a ≡ b = ground (arith, e) in
    let t : mismo_texto k j ≡ true = ground (arith, e) in rw (h, mismo_texto_eq k j t) refl

pub mismo_texto_ne : (k j : Bytes) → k ≢ j → mismo_texto k j ≡ false
mismo_texto_ne k j n = elim (Bool-cases (mismo_texto k j)) [
  | inl si ↦ absurd (n (mismo_texto_eq k j si))
  | inr otro ↦ otro
]

-- A dictionary as a function.
abbrev pub diccionario : DictLib (Bytes → Option ℕ)
diccionario = record {
  dictionary_get = λ d k. d k;
  dictionary_put = λ d k v j. if mismo_texto j k then some v else d j;
  dictionary_clean = λ d k. none;
  dictionary_put_same = λ d k v h. rw (mismo_texto_self k) refl;
  dictionary_put_other = λ d k j v n. rw (mismo_texto_ne j k n) refl;
  dictionary_clean_lem = λ d k. refl;
}

abbrev pub memoria_cpu : Umv
memoria_cpu = record {
  inicio_memoria = 1000;
  cant_mem = 128;
  alg_mem = ff;
  segmentos =
      record { id_programa = 7; tamanio = 40; dir_logica = 55; dir_fisica = 1000 }
      ∷ record { id_programa = 7; tamanio = 16; dir_logica = 200; dir_fisica = 1040 }
      ∷ record { id_programa = 7; tamanio = 8; dir_logica = 300; dir_fisica = 1056 }
      ∷ [];
  memoria = λ a. if a == 1000 then 97 else if a == 1044 then 3 else if ltb 1055 a then 65 else 0;
  azar = [];
}

pub memoria_cpu-IsValid : IsValid memoria_cpu
memoria_cpu-IsValid = record {
  no_nulo = omega arith;
  cabe = omega arith;
  con_signo = omega arith;
  ordenados = omega arith;
}

abbrev pub pcb_siete : Pcb
pcb_siete = record {
  pid = 7;
  segmento_codigo = 300;
  segmento_stack = 55;
  cursor_stack = 60;
  indice_codigo = 200;
  indice_etiqueta = 0;
  program_counter = 0;
  tamanio_contexto = 1;
  tamanio_etiqueta = 0;
  cantidad_de_funciones = 0;
  cantidad_de_etiquetas = 0;
}

abbrev pub cpu_siete : Cpu (Bytes → Option ℕ)
cpu_siete = record {
  pcb = pcb_siete;
  inicio_contexto = 55;
  diccionario_variables = λ k. if mismo_texto k (97 ∷ []) then some 56 else none;
  bloque_etiquetas = [];
  estado_rafaga = 7;
  umv = memoria_cpu;
  conexion = record { tipo_conexion = tipo_cpu; id_programa = 7 };
  enviados = [];
  recibidos = [];
}

abbrev pub pila_siete : Bytes
pila_siete =
    97 ∷ 0 ∷ 0 ∷ 0 ∷ 0 ∷ 0 ∷ 0 ∷ 0 ∷ 0 ∷ 0 ∷ 0 ∷ 0 ∷ 0 ∷ 0 ∷ 0 ∷ 0 ∷ 0 ∷ 0 ∷ 0 ∷ 0 ∷ 0 ∷ 0 ∷ 0 ∷ 0
    ∷ 0 ∷ 0 ∷ 0 ∷ 0 ∷ 0 ∷ 0 ∷ 0 ∷ 0 ∷ 0 ∷ 0 ∷ 0 ∷ 0 ∷ 0 ∷ 0 ∷ 0 ∷ 0 ∷ []

abbrev pub listas_cpu : ListLib Segmento
listas_cpu = sequences

abbrev pub buscar_etiqueta : Bytes → Bytes → ℕ → ℕ
buscar_etiqueta etiqueta bloque tamanio = 1

pub cpu_siete-EnPila : EnPila cpu_siete pila_siete
unfolding leer
cpu_siete-EnPila = record {
  valida = memoria_cpu-IsValid;
  tipo = refl;
  alto = omega arith;
  corto = omega arith;
  vista = record { id_programa = 7; tamanio = 40; dir_logica = 55; contenido = pila_siete };
  esta = refl;
  tamanio = refl;
  contenido = refl;
}

nombre_a :
    (id posicion : ℕ)
    → (if mismo_texto (nombre_variable id) (97 ∷ []) then some posicion else none)
      ≡ (if 97 == id then some posicion else none)
unfolding nombre_variable mismo_texto
nombre_a id posicion = ground arith

pub cpu_siete-Marco : Marco diccionario cpu_siete pila_siete 5
unfolding leer
cpu_siete-Marco = record {
  en_pila = cpu_siete-EnPila;
  cursor = refl;
  lugar = omega arith;
  entero = omega arith;
  sin_repetir = unfold SinRepetir contiene in (refl, tt);
  nombres = λ id. unfold obtener_posicion_variable direccion in nombre_a id 56;
}

-- Another CPU of the same server, that has served another program.
abbrev pub otra_cpu : Cpu (Bytes → Option ℕ)
otra_cpu = record cpu_siete {
  pcb = record pcb_siete { pid = 3; cursor_stack = 55 };
  diccionario_variables = λ k. some 99;
  conexion = record { tipo_conexion = tipo_cpu; id_programa = 3 };
}

-- A stack of eight bytes, all of them in use, in the code's segment.
abbrev pub llena : Cpu (Bytes → Option ℕ)
llena = record cpu_siete {
  pcb = record pcb_siete { segmento_stack = 300; cursor_stack = 308; tamanio_contexto = 0 };
  diccionario_variables = λ k. none;
}

abbrev pub pila_llena : Bytes
pila_llena = 65 ∷ 65 ∷ 65 ∷ 65 ∷ 65 ∷ 65 ∷ 65 ∷ 65 ∷ []

pub llena-Marco : Marco diccionario llena pila_llena 8
unfolding leer
llena-Marco = record {
  en_pila = record {
    valida = memoria_cpu-IsValid;
    tipo = refl;
    alto = omega arith;
    corto = omega arith;
    vista = record { id_programa = 7; tamanio = 8; dir_logica = 300; contenido = pila_llena };
    esta = refl;
    tamanio = refl;
    contenido = refl;
  };
  cursor = refl;
  lugar = omega arith;
  entero = omega arith;
  sin_repetir = unfold SinRepetir in tt;
  nombres = λ id. unfold obtener_posicion_variable direccion in refl;
}

-- Two variables of a function.
abbrev pub locales : Bytes
locales = 98 ∷ 1 ∷ 2 ∷ 3 ∷ 4 ∷ 99 ∷ 5 ∷ 6 ∷ 7 ∷ 8 ∷ []

pub locales-SinRepetir : SinRepetir locales
unfolding SinRepetir contiene
locales-SinRepetir = (refl, (refl, tt))
