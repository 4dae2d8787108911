-- ===== src/Umv.antt =====
-- The state of the memory server (umv/umvMain.h): the block of memory and the table of segments.
-- The mutex makes each operation one step; `random()` is the list of the values that it has still
-- to give. An `int` that counts bytes of the block stays below 2 ^ 31 and is a number.
pub mod Busqueda
pub mod Compactacion
pub mod Operaciones
pub mod Tabla
pub mod Acceso
pub mod Creacion
pub mod Borrado
pub mod Conexiones
pub mod Consola
pub mod Arranque
use tp_sistemas_operativos_u.Base.{ℕ, ◌+◌, ◌≤◌, ◌<◌, List, [], ◌∷◌, Bytes}
use tp_sistemas_operativos_u.Memoria.{Memoria, leer}

-- `tipoSegmento`
pub record Segmento : Type 0 where
  pub id_programa : ℕ
  pub tamanio : ℕ
  pub dir_logica : ℕ
  pub dir_fisica : ℕ

-- enum { WF, FF }
abbrev pub wf : ℕ
wf = 0

abbrev pub ff : ℕ
ff = 1

pub record Umv : Type 0 where
  pub inicio_memoria : ℕ
  pub cant_mem : ℕ
  pub alg_mem : ℕ
  pub segmentos : List Segmento
  pub memoria : Memoria
  pub azar : List ℕ

-- The segments stand in the order of their addresses, none is empty, none overlaps the next, and all
-- lie between `p` and `fin`.
abbrev pub Ordenados : (p fin : ℕ) → List Segmento → Type 0
Ordenados p fin [] = p ≤ fin
Ordenados p fin (s ∷ ss) =
    (p ≤ s.dir_fisica) × (0 < s.tamanio) × Ordenados (s.dir_fisica + s.tamanio) fin ss

-- The block lies inside the address space, below 2 ^ 31 bytes, and holds the segments.
pub record IsValid (u : Umv) : Type 0 where
  pub no_nulo : 0 < u.inicio_memoria
  pub cabe : u.inicio_memoria + u.cant_mem < 4294967296
  pub con_signo : u.cant_mem < 2147483648
  pub ordenados : Ordenados u.inicio_memoria (u.inicio_memoria + u.cant_mem) u.segmentos

-- What a client can know of a segment: its program, its size, its logical address and its bytes, not
-- where it lies.
pub record Vista : Type 0 where
  pub id_programa : ℕ
  pub tamanio : ℕ
  pub dir_logica : ℕ
  pub contenido : Bytes

abbrev pub vista_de : Memoria → Segmento → Vista
vista_de m s = record {
  id_programa = s.id_programa;
  tamanio = s.tamanio;
  dir_logica = s.dir_logica;
  contenido = leer m s.dir_fisica s.tamanio;
}

abbrev pub vistas_de : Memoria → List Segmento → List Vista
vistas_de m [] = []
vistas_de m (s ∷ ss) = vista_de m s ∷ vistas_de m ss

abbrev pub vistas : Umv → List Vista
vistas u = vistas_de u.memoria u.segmentos
