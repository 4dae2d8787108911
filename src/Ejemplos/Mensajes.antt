-- ===== src/Ejemplos/Mensajes.antt =====
-- The theorems of the two protocols, on messages of each kind.
use tp_sistemas_operativos_u.Base.{◌≡◌, refl, [], ◌∷◌, some, arith, ◌>>=◌}
use tp_sistemas_operativos_u.Memoria.{leer}
use tp_sistemas_operativos_u.Commons.{TextLib}
use tp_sistemas_operativos_u.Mensajes.{Conexion, AlmacenarBytes, tipo_cpu, de_buffer}
use tp_sistemas_operativos_u.Mensajes.Pedidos.{almacenar, umv_serializar, deserealizar_operacion}
use tp_sistemas_operativos_u.Mensajes.Pedidos.Vuelta.{pedido_de, deserealizar-umv_serializar}
use tp_sistemas_operativos_u.Mensajes.Respuestas.{
  bytes_solicitados, serializar_respuesta, umv_deserializar,
}
use tp_sistemas_operativos_u.Mensajes.Respuestas.Vuelta.{umv_deserializar-serializar_respuesta}
use tp_sistemas_operativos_u.Protocolo.{Pcb, MensajeCpu, entrada_salida_kernel, atende_proceso}
use tp_sistemas_operativos_u.Protocolo.Bloque.{IsPcb}
use tp_sistemas_operativos_u.Protocolo.DeCpu.{serializar_cpu, deserializar_kernel}
use tp_sistemas_operativos_u.Protocolo.DeCpu.Vuelta.{deserializar_kernel-serializar_cpu}
use tp_sistemas_operativos_u.Protocolo.DeKernel.{
  serializar_kernel, deserializar_cpu, deserializar_cpu-serializar_kernel,
}

abbrev cliente : Conexion
cliente = record { tipo_conexion = tipo_cpu; id_programa = 4 }

abbrev guardado : AlmacenarBytes
guardado = record { base = 300; offset = 70000; tamanio = 5; buffer = 9 ∷ 8 ∷ 7 ∷ 6 ∷ 5 ∷ [] }

deserealizar-umv_serializar_example :
    (umv_serializar (almacenar guardado) >>= λ buffer. deserealizar_operacion buffer cliente)
    ≡ some (pedido_de (almacenar guardado) cliente)
deserealizar-umv_serializar_example =
    deserealizar-umv_serializar (almacenar guardado) cliente
      (omega arith, omega arith, omega arith, refl, omega arith)

umv_deserializar-serializar_respuesta_example :
    umv_deserializar (
      serializar_respuesta
        (λ a. a)
        (bytes_solicitados (record { base = 5; offset = 1; tamanio = 3 })))
    ≡ some (record { id_operacion = 2; estructura = de_buffer (6 ∷ 7 ∷ 8 ∷ []) })
unfolding leer
umv_deserializar-serializar_respuesta_example =
    umv_deserializar-serializar_respuesta (λ a. a)
      (bytes_solicitados (record { base = 5; offset = 1; tamanio = 3 })) tt

abbrev bloque : Pcb
bloque = record {
  pid = 3;
  segmento_codigo = 1000;
  segmento_stack = 2000;
  cursor_stack = 2000;
  indice_codigo = 3000;
  indice_etiqueta = 1;
  program_counter = 70000;
  tamanio_contexto = 2;
  tamanio_etiqueta = 0;
  cantidad_de_funciones = 0;
  cantidad_de_etiquetas = 0;
}

bloque-IsPcb : IsPcb bloque
bloque-IsPcb = record {
  pid = omega arith;
  segmento_codigo = omega arith;
  segmento_stack = omega arith;
  cursor_stack = omega arith;
  indice_codigo = omega arith;
  indice_etiqueta = omega arith;
  program_counter = omega arith;
  tamanio_contexto = omega arith;
  tamanio_etiqueta = omega arith;
  cantidad_de_funciones = omega arith;
  cantidad_de_etiquetas = omega arith;
}

abbrev textos : TextLib
textos = record { string_duplicate = λ t. t; string_duplicate_lem = λ t. refl }

abbrev espera : MensajeCpu
espera = entrada_salida_kernel (record { dispositivo = 100 ∷ 105 ∷ []; tiempo = 5; pcb = bloque })

deserializar_kernel-serializar_cpu_example :
    deserializar_kernel textos (serializar_cpu textos espera) ≡ some espera
deserializar_kernel-serializar_cpu_example =
    deserializar_kernel-serializar_cpu textos espera
      (record { sin_cero = omega arith; corto = omega arith }, omega arith, bloque-IsPcb)

deserializar_cpu-serializar_kernel_example :
    deserializar_cpu (serializar_kernel (atende_proceso bloque)) ≡ some (atende_proceso bloque)
deserializar_cpu-serializar_kernel_example =
    deserializar_cpu-serializar_kernel (atende_proceso bloque) bloque-IsPcb
