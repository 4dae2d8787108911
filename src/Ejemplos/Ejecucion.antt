-- ===== src/Ejemplos/Ejecucion.antt =====
-- The theorems of the CPU, on the program of Maquina.
use tp_sistemas_operativos_u.Base.{
  ℕ, ◌≡◌, refl, ◌>>=◌, true, false, Option, none, some, [], ◌∷◌, arith, Bytes,
}
use tp_sistemas_operativos_u.Commons.{sequences}
use tp_sistemas_operativos_u.Memoria.{leer}
use tp_sistemas_operativos_u.Protocolo.{bloquear, atende_proceso}
use tp_sistemas_operativos_u.Umv.{Umv}
use tp_sistemas_operativos_u.Kernel.Planificador.{mismo_texto}
use tp_sistemas_operativos_u.Cpu.{Cpu, rafaga_fin_rafaga}
use tp_sistemas_operativos_u.Cpu.Memoria.{
  dereferenciar, asignar, definir_variable, nombre_variable, obtener_posicion_variable,
}
use tp_sistemas_operativos_u.Cpu.Pila.{EnPila}
use tp_sistemas_operativos_u.Cpu.Contexto.{contiene}
use tp_sistemas_operativos_u.Cpu.Marco.{
  definida, dereferenciar-asignar, definir_variable-Marco, Marco,
}
use tp_sistemas_operativos_u.Base.{word_bytes}
use tp_sistemas_operativos_u.Memoria.Rebanadas.{sobrescribir}
use tp_sistemas_operativos_u.Cpu.Llamadas.{
  llamar_con_retorno, llamar_sin_retorno, finalizar, retornar,
}
use tp_sistemas_operativos_u.Cpu.Nucleo.{con_estado}
use tp_sistemas_operativos_u.Cpu.Rafaga.{
  recibir_pcb, empezar_contexto, puede_seguir_ejecutando, avisa, traer_proxima_instruccion,
  ejecutar_linea, ejecutar_rafaga,
}
use tp_sistemas_operativos_u.Cpu.Locales.{definir_variables}
use tp_sistemas_operativos_u.Cpu.Subrutina.{de_vuelta, finalizar-llamar_sin_retorno}
use tp_sistemas_operativos_u.Cpu.Funcion.{retornar-llamar_con_retorno}
use tp_sistemas_operativos_u.Cpu.Cambio.{sin_etiquetas, con_programa, recibir_pcb-Marco}
use tp_sistemas_operativos_u.Cpu.Codigo.{traer_proxima_instruccion-linea}
use tp_sistemas_operativos_u.Cpu.Desborde.{con_excepcion, definir_variable-desborde}
use tp_sistemas_operativos_u.Cpu.Quantum.{Lineas, ejecutar_rafaga-Lineas}
use tp_sistemas_operativos_u.Cpu.Acuerdo.{
  esperar_semaforo, Dialogo, ejecutar_primitiva, mensaje_de, ejecutar_primitiva-controlar,
}
use tp_sistemas_operativos_u.Kernel.{Kernel, pos, es_negativo, pred_int}
use tp_sistemas_operativos_u.Kernel.Planificador.{fn_lock}
use tp_sistemas_operativos_u.Kernel.Conexion.{Hilo, controlar, seguir_tras_wait, o_terminar}
use tp_sistemas_operativos_u.Ejemplos.Maquina.{
  diccionario, memoria_cpu, memoria_cpu-IsValid, pcb_siete, cpu_siete, pila_siete, listas_cpu,
  buscar_etiqueta, cpu_siete-EnPila, cpu_siete-Marco, otra_cpu, llena, pila_llena, llena-Marco,
  locales, locales-SinRepetir,
}

abbrev tras_llamada : Umv → (Bytes → Option ℕ) → Cpu (Bytes → Option ℕ)
tras_llamada u d = record cpu_siete { umv = u; diccionario_variables = d }

retornar-llamar_con_retorno_example :
    (u : Umv) × (d : Bytes → Option ℕ) × ((do
      c1 ← llamar_con_retorno listas_cpu diccionario buscar_etiqueta cpu_siete (102 ∷ []) 56
      c2 ← definir_variables listas_cpu diccionario c1 locales
      retornar listas_cpu diccionario buscar_etiqueta c2 42)
      ≡ some (tras_llamada u d))
    × ((id : ℕ)
        → obtener_posicion_variable diccionario (tras_llamada u d) id
          ≡ obtener_posicion_variable diccionario cpu_siete id)
    × (dereferenciar listas_cpu (tras_llamada u d) 56 ≡ some (tras_llamada u d, 42))
unfolding de_vuelta obtener_posicion_variable mismo_texto nombre_variable
retornar-llamar_con_retorno_example =
    retornar-llamar_con_retorno listas_cpu diccionario buscar_etiqueta cpu_siete pila_siete 0 2 97
      56 42 (102 ∷ []) locales cpu_siete-Marco refl (omega arith) (omega arith) refl
      locales-SinRepetir (omega arith)

finalizar-llamar_sin_retorno_example :
    (u : Umv) × (d : Bytes → Option ℕ) × ((do
      c1 ← llamar_sin_retorno listas_cpu diccionario buscar_etiqueta cpu_siete (102 ∷ [])
      c2 ← definir_variables listas_cpu diccionario c1 locales
      finalizar listas_cpu diccionario buscar_etiqueta c2)
      ≡ some (tras_llamada u d))
    × ((id : ℕ)
        → obtener_posicion_variable diccionario (tras_llamada u d) id
          ≡ obtener_posicion_variable diccionario cpu_siete id)
unfolding de_vuelta
finalizar-llamar_sin_retorno_example =
    finalizar-llamar_sin_retorno listas_cpu diccionario buscar_etiqueta cpu_siete pila_siete 0 2
      (102 ∷ []) locales cpu_siete-Marco (omega arith) refl locales-SinRepetir (omega arith)

definir_variable-Marco_example :
    (u : Umv) × (definir_variable listas_cpu diccionario cpu_siete 98 (1 ∷ 2 ∷ 3 ∷ 4 ∷ [])
      ≡ some (definida listas_cpu diccionario cpu_siete 5 98 u, 61))
    × Marco diccionario
        (definida listas_cpu diccionario cpu_siete 5 98 u)
        (sobrescribir 5 (98 ∷ 1 ∷ 2 ∷ 3 ∷ 4 ∷ []) pila_siete)
        10
unfolding contiene
definir_variable-Marco_example =
    definir_variable-Marco listas_cpu diccionario cpu_siete pila_siete 5 98 1 2 3 4 cpu_siete-Marco
      (omega arith) refl

dereferenciar-asignar_example :
    (u : Umv) × (asignar listas_cpu cpu_siete 56 300 ≡ some (record cpu_siete { umv = u }))
    × (dereferenciar listas_cpu (record cpu_siete { umv = u }) 56
        ≡ some (record cpu_siete { umv = u }, 300))
    × EnPila (record cpu_siete { umv = u }) (sobrescribir 1 (word_bytes 300) pila_siete)
dereferenciar-asignar_example =
    dereferenciar-asignar listas_cpu cpu_siete pila_siete 1 300 cpu_siete-EnPila (omega arith)
      (omega arith)

recibir_pcb-Marco_example :
    (b : Bytes) × (d : Bytes → Option ℕ) × ((do
      c ←
          recibir_pcb listas_cpu diccionario
            (record otra_cpu { recibidos = atende_proceso pcb_siete ∷ [] })
      empezar_contexto listas_cpu diccionario c)
      ≡ some (con_programa listas_cpu diccionario otra_cpu memoria_cpu pcb_siete [] 0 b d))
    × Marco diccionario
        (con_programa listas_cpu diccionario otra_cpu memoria_cpu pcb_siete [] 0 b d)
        pila_siete
        5
    × ((id : ℕ)
        → obtener_posicion_variable diccionario
            (con_programa listas_cpu diccionario otra_cpu memoria_cpu pcb_siete [] 0 b d)
            id
          ≡ obtener_posicion_variable diccionario cpu_siete id)
recibir_pcb-Marco_example =
    recibir_pcb-Marco listas_cpu diccionario cpu_siete otra_cpu pila_siete 0 [] cpu_siete-Marco refl
      refl (omega arith) (sin_etiquetas refl)

definir_variable-desborde_example :
    (u : Umv) × (definir_variable listas_cpu diccionario llena 98 (1 ∷ 2 ∷ 3 ∷ 4 ∷ [])
      ≡ some (con_excepcion llena u, 0))
    × EnPila (con_excepcion llena u) pila_llena
    × (puede_seguir_ejecutando (con_excepcion llena u) 5 2 ≡ false)
    × (avisa (con_excepcion llena u).estado_rafaga ≡ false)
definir_variable-desborde_example =
    definir_variable-desborde listas_cpu diccionario llena pila_llena 8 98 1 2 3 4 5 2 llena-Marco
      (omega arith)

traer_proxima_instruccion-linea_example :
    traer_proxima_instruccion listas_cpu cpu_siete ≡ some (cpu_siete, some (65 ∷ 65 ∷ 65 ∷ []))
unfolding leer word_bytes
traer_proxima_instruccion-linea_example =
    traer_proxima_instruccion-linea listas_cpu cpu_siete
      (record {
        id_programa = 7;
        tamanio = 16;
        dir_logica = 200;
        contenido = leer memoria_cpu.memoria 1040 16;
      })
      (record {
        id_programa = 7;
        tamanio = 8;
        dir_logica = 300;
        contenido = leer memoria_cpu.memoria 1056 8;
      })
      0 3 (65 ∷ 65 ∷ 65 ∷ [])
      (record { valida = memoria_cpu-IsValid; tipo = refl; esta = refl; alto = omega arith })
      (record { valida = memoria_cpu-IsValid; tipo = refl; esta = refl; alto = omega arith })
      (omega arith) refl (omega arith) refl refl (omega arith)

ejecutar_rafaga-Lineas_example :
    Lineas
      (ejecutar_linea listas_cpu (λ linea c. some c))
      (con_estado cpu_siete rafaga_fin_rafaga)
      1
      (ejecutar_rafaga listas_cpu (λ linea c. some c) 1 cpu_siete)
ejecutar_rafaga-Lineas_example = ejecutar_rafaga-Lineas listas_cpu (λ linea c. some c) 1 cpu_siete

-- A kernel with a semaphore that nobody can pass.
abbrev nucleo_a : Kernel
nucleo_a = record {
  programas = λ p. record { socket_prog = p; pcb = pcb_siete };
  new_procesos = [];
  lista_ready = [];
  lista_exec = 1 ∷ [];
  exit_procesos = [];
  estado_multiprogramacion = 1;
  productor_consumidor = 0;
  semaforo_exit = 0;
  nuevo_programa_sem = 0;
  list_smfrs = record { sz_semaforo = 97 ∷ []; i_semaforo = pos 0; prog_encolados = [] } ∷ [];
  list_dispos = [];
  valores = λ v. 0;
}

ejecutar_primitiva-controlar_example :
    Dialogo cpu_siete Hilo.esperando (mensaje_de pcb_siete (esperar_semaforo (97 ∷ []))) (
      ejecutar_primitiva
        (record cpu_siete { recibidos = bloquear ∷ [] })
        (esperar_semaforo (97 ∷ [])))
unfolding controlar mensaje_de mismo_texto seguir_tras_wait o_terminar fn_lock es_negativo pred_int
ejecutar_primitiva-controlar_example =
    ejecutar_primitiva-controlar (λ A. sequences) (λ v. none) cpu_siete nucleo_a
      (fn_lock (λ A. sequences) nucleo_a (record { semaforo = 97 ∷ []; pcb = pcb_siete }) 1).0 1
      true (esperar_semaforo (97 ∷ [])) Hilo.esperando (bloquear ∷ []) refl refl
