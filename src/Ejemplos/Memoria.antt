-- ===== src/Ejemplos/Memoria.antt =====
-- The theorems of the memory server, on a block of 64 bytes with two segments.
use tp_sistemas_operativos_u.Base.{◌⊎◌, Bytes, ◌≡◌, refl, inl, [], ◌∷◌, some, arith, reject}
use tp_sistemas_operativos_u.Commons.{sequences, ListLib}
use tp_sistemas_operativos_u.Memoria.{escribir}
use tp_sistemas_operativos_u.Mensajes.{
  SolicitudBytes, AlmacenarBytes, Conexion, Pedido, tipo_cpu, tipo_kernel, sin_contenido, de_buffer,
  de_tamanio,
}
use tp_sistemas_operativos_u.Mensajes.Respuestas.{umv_deserializar, texto_segmentation_fault}
use tp_sistemas_operativos_u.Umv.{Segmento, Umv, IsValid, vistas, wf}
use tp_sistemas_operativos_u.Umv.Operaciones.{
  solicitar_bytes, almacenar_bytes, generar_segmento, eliminar_segmentos,
}
use tp_sistemas_operativos_u.Umv.Acceso.{
  solicitar_bytes-almacenar_bytes, solicitar_bytes-solicitar_vista, almacenar_bytes-almacenar_vista,
}
use tp_sistemas_operativos_u.Umv.Acceso.Especificacion.{solicitar_vista, almacenar_vista}
use tp_sistemas_operativos_u.Umv.Compactacion.{fn_compactar}
use tp_sistemas_operativos_u.Umv.Compactacion.Correcta.{fn_compactar-vistas}
use tp_sistemas_operativos_u.Umv.Busqueda.{buscar_espacio_ff, buscar_espacio_wf}
use tp_sistemas_operativos_u.Umv.Busqueda.Huecos.{huecos_de}
use tp_sistemas_operativos_u.Umv.Busqueda.PrimerAjuste.{
  primer_hueco, buscar_espacio_ff-primer_hueco,
}
use tp_sistemas_operativos_u.Umv.Busqueda.PeorAjuste.{EsPeorAjuste, buscar_espacio_wf-EsPeorAjuste}
use tp_sistemas_operativos_u.Umv.Borrado.{es_vista_de, eliminar_segmentos-reject}
use tp_sistemas_operativos_u.Umv.Creacion.Generar.{
  Creado, Rechazado, generar_segmento-Creado, generar_segmento-total,
}
use tp_sistemas_operativos_u.Umv.Acceso.Desborde.{almacenar_bytes-desborde}
use tp_sistemas_operativos_u.Umv.Conexiones.{turno_cpu, turno_kernel, turno_comun, despachar}
use tp_sistemas_operativos_u.Umv.Conexiones.Cliente.{pedir, pedir-solicitar, pedir-almacenar}
use tp_sistemas_operativos_u.Umv.Conexiones.Estado.{IsServidor}
use tp_sistemas_operativos_u.Umv.Conexiones.Aislamiento.{ajenas, despachar-ajenas}
use tp_sistemas_operativos_u.Umv.Conexiones.Sesion.{despachar-IsServidor}
use tp_sistemas_operativos_u.Mensajes.Pedidos.{solicitar, almacenar}

abbrev servidor : Umv
servidor = record {
  inicio_memoria = 1000;
  cant_mem = 64;
  alg_mem = wf;
  segmentos =
      record { id_programa = 7; tamanio = 16; dir_logica = 55; dir_fisica = 1000 }
      ∷ record { id_programa = 8; tamanio = 8; dir_logica = 99; dir_fisica = 1024 }
      ∷ [];
  memoria = λ a. 0;
  azar = 55 ∷ 200 ∷ [];
}

abbrev listas : ListLib Segmento
listas = sequences

servidor-IsValid : IsValid servidor
servidor-IsValid = record {
  no_nulo = omega arith;
  cabe = omega arith;
  con_signo = omega arith;
  ordenados = omega arith;
}

abbrev envio : AlmacenarBytes
envio = record { base = 55; offset = 4; tamanio = 3; buffer = 1 ∷ 2 ∷ 3 ∷ [] }

abbrev lectura : SolicitudBytes
lectura = record { base = 99; offset = 2; tamanio = 7 }

solicitar_bytes-almacenar_bytes_example :
    umv_deserializar (
      solicitar_bytes listas
        (almacenar_bytes listas servidor 7 envio).0
        7
        (record { base = 55; offset = 4; tamanio = 3 }))
    ≡ some (record { id_operacion = 2; estructura = de_buffer (1 ∷ 2 ∷ 3 ∷ []) })
unfolding almacenar_bytes almacenar_vista
solicitar_bytes-almacenar_bytes_example =
    solicitar_bytes-almacenar_bytes listas servidor 7 envio servidor-IsValid (omega arith) refl (
      (almacenar_bytes-almacenar_vista listas servidor 7 envio servidor-IsValid (omega arith)
        refl).1)

almacenar_bytes-almacenar_vista_example :
    (vistas (almacenar_bytes listas servidor 7 envio).0
      ≡ (almacenar_vista (vistas servidor) 7 envio).0)
    × (umv_deserializar (almacenar_bytes listas servidor 7 envio).1
        ≡ some (record { id_operacion = 0; estructura = sin_contenido }))
unfolding almacenar_vista
almacenar_bytes-almacenar_vista_example =
    almacenar_bytes-almacenar_vista listas servidor 7 envio servidor-IsValid (omega arith) refl

solicitar_bytes-solicitar_vista_example :
    umv_deserializar (solicitar_bytes listas servidor 8 lectura)
    ≡ some (record { id_operacion = 3; estructura = de_buffer texto_segmentation_fault })
unfolding solicitar_vista
solicitar_bytes-solicitar_vista_example =
    solicitar_bytes-solicitar_vista listas servidor 8 lectura servidor-IsValid (omega arith)

fn_compactar-vistas_example : vistas (fn_compactar servidor) ≡ vistas servidor
fn_compactar-vistas_example = fn_compactar-vistas servidor servidor-IsValid

buscar_espacio_ff-primer_hueco_example : buscar_espacio_ff servidor 6 ≡ some 1016
unfolding primer_hueco
buscar_espacio_ff-primer_hueco_example = buscar_espacio_ff-primer_hueco servidor 6 servidor-IsValid

buscar_espacio_wf-EsPeorAjuste_example :
    EsPeorAjuste 6 (huecos_de servidor) (buscar_espacio_wf servidor 6)
buscar_espacio_wf-EsPeorAjuste_example = buscar_espacio_wf-EsPeorAjuste servidor 6 servidor-IsValid

eliminar_segmentos-reject_example :
    (vistas (eliminar_segmentos listas servidor 7).0 ≡ reject (es_vista_de 7) (vistas servidor))
    × (umv_deserializar (eliminar_segmentos listas servidor 7).1
        ≡ some (record { id_operacion = 0; estructura = sin_contenido }))
    × IsValid (eliminar_segmentos listas servidor 7).0
eliminar_segmentos-reject_example = eliminar_segmentos-reject listas servidor 7 servidor-IsValid

-- The answer to a request for 20 bytes.
creado : (r : Umv × Bytes) × (generar_segmento listas servidor 9 20 ≡ some r)
creado = generar_segmento-total listas servidor 9 20 200 servidor-IsValid refl refl

generar_segmento-Creado_example :
    IsValid creado.0.0
    × (Creado servidor creado.0.0 9 20 creado.0.1 ⊎ Rechazado servidor creado.0.0 20 creado.0.1)
generar_segmento-Creado_example =
    generar_segmento-Creado listas servidor 9 20 creado.0 servidor-IsValid (inl refl) (omega arith)
      (omega arith) creado.1

generar_segmento-total_example :
    (r : Umv × Bytes) × (generar_segmento listas servidor 9 40 ≡ some r)
generar_segmento-total_example =
    generar_segmento-total listas servidor 9 40 200 servidor-IsValid refl refl

servidor-IsServidor : IsServidor servidor
servidor-IsServidor = record {
  valida = servidor-IsValid;
  algoritmo = inl refl;
  sorteos = omega arith;
  unicas = (refl, (refl, tt));
}

abbrev kernel : Conexion
kernel = record { tipo_conexion = tipo_kernel; id_programa = 9 }

abbrev cpu : Conexion
cpu = record { tipo_conexion = tipo_cpu; id_programa = 8 }

abbrev pedido_20 : Pedido
pedido_20 = record { id_operacion = 4; estructura = de_tamanio 20 }

despachado : despachar listas servidor kernel pedido_20 ≡ some creado.0
unfolding despachar turno_comun turno_kernel turno_cpu
despachado = rw creado.1 refl

despachar-IsServidor_example : IsServidor creado.0.0
despachar-IsServidor_example =
    despachar-IsServidor listas servidor kernel pedido_20 creado.0 servidor-IsServidor
      (λ e. absurd (ground arith)) despachado

despachar-ajenas_example : ajenas 9 creado.0.0 ≡ ajenas 9 servidor
despachar-ajenas_example =
    despachar-ajenas listas servidor kernel pedido_20 creado.0 servidor-IsServidor (omega arith)
      despachado

-- A store at an offset of 2 ^ 32 - 8 into the segment of 8 bytes at 1024 writes from 1016 on.
abbrev lejano : AlmacenarBytes
lejano = record { base = 99; offset = 4294967288; tamanio = 8; buffer = 1 ∷ 2 ∷ [] }

almacenar_bytes-desborde_example :
    ((almacenar_bytes listas servidor 8 lejano).0.memoria
      ≡ escribir servidor.memoria 1016 (1 ∷ 2 ∷ []))
    × (umv_deserializar (almacenar_bytes listas servidor 8 lejano).1
        ≡ some (record { id_operacion = 0; estructura = sin_contenido }))
almacenar_bytes-desborde_example =
    almacenar_bytes-desborde listas servidor 8 lejano
      (record { id_programa = 8; tamanio = 8; dir_logica = 99; dir_fisica = 1024 }) refl
      (omega arith) (omega arith) (omega arith) (omega arith) (omega arith) (omega arith)

pedir-solicitar_example :
    pedir listas servidor cpu (solicitar lectura)
    ≡ some (
      servidor,
      cpu,
      record { id_operacion = 3; estructura = de_buffer texto_segmentation_fault },
    )
unfolding solicitar_vista
pedir-solicitar_example =
    pedir-solicitar listas servidor cpu lectura servidor-IsValid (omega arith) (omega arith) refl

abbrev palabra : AlmacenarBytes
palabra = record { base = 99; offset = 4; tamanio = 4; buffer = 1 ∷ 2 ∷ 3 ∷ 4 ∷ [] }

pedir-almacenar_example :
    (u' : Umv) × (pedir listas servidor cpu (almacenar palabra)
      ≡ some (u', cpu, (almacenar_vista (vistas servidor) 8 palabra).1))
    × (vistas u' ≡ (almacenar_vista (vistas servidor) 8 palabra).0)
    × IsValid u'
pedir-almacenar_example =
    pedir-almacenar listas servidor cpu palabra servidor-IsValid
      (omega arith, omega arith, omega arith, refl, omega arith) (omega arith)
