-- ===== src/Ejemplos/Consola.antt =====
-- The theorems of the memory server as a whole: it starts, the kernel greets it, and on the console a
-- segment is created.
use tp_sistemas_operativos_u.Umv.Busqueda.{nodos_ff, final_ff, buscar_espacio, buscar_espacio_ff}
use tp_sistemas_operativos_u.Umv.Operaciones.{
  generar_en, generar_direccion_logica, generar_segmento,
}
use tp_sistemas_operativos_u.Mensajes.Respuestas.{
  consola_deserializar, serializar_respuesta, deserializar_segmento_creado,
  serializar_segmento_creado,
}
use tp_sistemas_operativos_u.Base.{
  read_word, word_bytes, ℕ, ◌+◌, ◌-◌, ◌*◌, ◌<◌, ◌≡◌, refl, sym, ◌∙◌, ◌==◌, leb, ◌&&◌, if◌then◌else◌,
  Bool, true, false, Option, none, some, List, [], ◌∷◌, Bytes, arith, take, drop, some_inj,
}
use tp_sistemas_operativos_u.Mensajes.{serializar_operacion}
use tp_sistemas_operativos_u.Umv.Consola.{
  despachar_comando, fn_consola_crear_segmento, Servidor, Noticia, pfn_consola,
}
use tp_sistemas_operativos_u.Umv.Consola.Palabras.{
  fn_reemp_caracter_por_blanco, sin_ultimo, ifn_parametros, ConsolaLib, psz_generar_argumentos,
  szfn_parametro_num,
}
use tp_sistemas_operativos_u.Umv.Arranque.{
  leer_algoritmo, ninguna, otra, teclea, iniciar_umv, Rondas-iniciar_umv,
}
use mathlib.Core.Path.{subst}
use tp_sistemas_operativos_u.Commons.{sequences, ListLib}
use tp_sistemas_operativos_u.Kernel.Planificador.{mismo_texto}
use tp_sistemas_operativos_u.Umv.{Segmento, Umv, ff}
use tp_sistemas_operativos_u.Umv.Conexiones.Estado.{IsServidor}
use tp_sistemas_operativos_u.Umv.Consola.Listados.{debug, info, fn_mostrar_espacios_libre}
use tp_sistemas_operativos_u.Umv.Consola.Libres.{mostrados, fn_mostrar_espacios_libre-mostrados}
use tp_sistemas_operativos_u.Umv.Consola.Estado.{PideAlgo}

-- The words between the spaces.
palabras : Bytes → (actual : Bytes) → List Bytes
palabras [] actual = actual ∷ []
palabras (c ∷ cs) actual =
    let corta = palabras cs [] in
    let sigue = palabras cs (agregar actual c) in if c == 32 then actual ∷ corta else sigue
  where
    agregar : Bytes → ℕ → Bytes
    agregar [] c = c ∷ []
    agregar (x ∷ xs) c = x ∷ agregar xs c

minuscula : ℕ → ℕ
minuscula c = if leb 65 c && leb c 90 then c + 32 else c

en_minusculas : Bytes → Bytes
en_minusculas [] = []
en_minusculas (c ∷ cs) = minuscula c ∷ en_minusculas cs

numero : ℕ → Bytes → ℕ
numero n [] = n
numero n (c ∷ cs) = numero (10 * n + (c - 48)) cs

abbrev textos : ConsolaLib
textos = record {
  string_split = λ t. palabras t [];
  string_equals_ignore_case = λ a b. mismo_texto (en_minusculas a) (en_minusculas b);
  string_substring = λ t i n. take n (drop i t);
  atoi = numero 0;
  sscanf_x = numero 0;
}

abbrev listas : ListLib Segmento
listas = sequences

abbrev iniciado : Servidor
iniciado = iniciar_umv textos 64 5 (70 ∷ 70 ∷ []) 1000 (λ a. 0) (77 ∷ 88 ∷ [])

-- "cs 7 20" and the end of the line.
abbrev cs_7_20 : Bytes
cs_7_20 = 99 ∷ 115 ∷ 32 ∷ 55 ∷ 32 ∷ 50 ∷ 48 ∷ 10 ∷ []

abbrev o_este : {A : Type 0} → A → Option A → A
o_este a none = a
o_este a (some b) = b

abbrev hay_algo : {A : Type 0} → Option A → Bool
hay_algo none = false
hay_algo (some b) = true

some-o_este : {A : Type 0} (a : A) (o : Option A) → hay_algo o ≡ true → o ≡ some (o_este a o)
some-o_este a none h = absurd (ground arith)
some-o_este a (some b) h = refl

abbrev creado : Servidor × List Noticia
creado = o_este (iniciado, []) (pfn_consola textos listas iniciado cs_7_20)

corre : hay_algo (pfn_consola textos listas iniciado cs_7_20) ≡ true
unfolding pfn_consola psz_generar_argumentos palabras fn_reemp_caracter_por_blanco sin_ultimo
    despachar_comando mismo_texto en_minusculas minuscula ifn_parametros fn_consola_crear_segmento
    szfn_parametro_num generar_segmento buscar_espacio iniciar_umv leer_algoritmo buscar_espacio_ff
    nodos_ff final_ff numero generar_en generar_direccion_logica consola_deserializar read_word
    serializar_respuesta serializar_operacion word_bytes deserializar_segmento_creado
    serializar_segmento_creado
corre = refl

abbrev las_palabras : List Bytes
las_palabras = (99 ∷ 115 ∷ []) ∷ (55 ∷ []) ∷ (50 ∷ 48 ∷ []) ∷ []

separa : psz_generar_argumentos textos cs_7_20 ≡ some las_palabras
unfolding psz_generar_argumentos palabras fn_reemp_caracter_por_blanco sin_ultimo
separa = refl

pide_20 : PideAlgo textos las_palabras
unfolding PideAlgo szfn_parametro_num numero
pide_20 c t e = subst (λ t. 0 < textos.atoi t) (some_inj e) (omega arith)

Rondas-iniciar_umv_example : IsServidor creado.0.umv
Rondas-iniciar_umv_example =
    Rondas-iniciar_umv textos listas 64 5 (70 ∷ 70 ∷ []) 1000 (λ a. 0) (77 ∷ 88 ∷ [])
      (record { servidor = creado.0; conexiones = λ i. none }) (omega arith) (omega arith)
      (omega arith) (omega arith)
      (otra ninguna (
        teclea cs_7_20 creado (λ ps e. subst (PideAlgo textos) (some_inj (sym separa ∙ e)) pide_20)
          (some-o_este (iniciado, []) _ corre) refl))

abbrev con_huecos : Umv
con_huecos = record {
  inicio_memoria = 1000;
  cant_mem = 64;
  alg_mem = ff;
  segmentos =
      record { id_programa = 7; tamanio = 16; dir_logica = 55; dir_fisica = 1008 }
      ∷ record { id_programa = 9; tamanio = 8; dir_logica = 99; dir_fisica = 1024 }
      ∷ [];
  memoria = λ a. 0;
  azar = [];
}

-- The last line is that of the 32 bytes at 1032.
fn_mostrar_espacios_libre-mostrados_example :
    fn_mostrar_espacios_libre con_huecos
    ≡ record { nivel = debug; base = some 1000; tamanio = 8 }
      ∷ record { nivel = info; base = some 1000; tamanio = 32 }
      ∷ []
unfolding mostrados
fn_mostrar_espacios_libre-mostrados_example =
    fn_mostrar_espacios_libre-mostrados con_huecos (record {
      no_nulo = omega arith;
      cabe = omega arith;
      con_signo = omega arith;
      ordenados = omega arith;
    })
