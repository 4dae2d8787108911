-- ===== src/Cpu/Nucleo.antt =====
-- The primitives of CPU/src/funcionesAnsisop/funcionesAnsisop.c that ask the kernel. Messages are read
-- and written as Protocolo has them.
use tp_sistemas_operativos_u.Base.{
  ℕ, ◌==◌, if◌then◌else◌, ◌>>=◌, Option, none, some, [], ◌∷◌, ◌++◌, Bytes,
}
use tp_sistemas_operativos_u.Protocolo.{
  MensajeCpu, MensajeKernel, continuar, terminar, valor_compartida, obtener_valor_var_compartida,
  asignar_valor_var_compartida, imprimir_kernel, imprimir_texto_kernel, entrada_salida_kernel,
  wait_kernel, signal_kernel,
}
use tp_sistemas_operativos_u.Cpu.{
  Cpu, rafaga_entrada_salida, rafaga_fin_programa, rafaga_wait_bloqueado,
}

module _ {D : Type 0} where
  unfoldable pub enviar_a_kernel : Cpu D → MensajeCpu → Cpu D
  enviar_a_kernel c m = record c { enviados = c.enviados ++ m ∷ [] }

  -- socket_recv(socketKernel)
  unfoldable pub recibir_de_kernel : Cpu D → Option (Cpu D × MensajeKernel)
  recibir_de_kernel c = elim c.recibidos [
    | [] ↦ none
    | m ∷ ms ↦ some (record c { recibidos = ms }, m)
  ]

  -- enviaYRecibeAOtroProceso(buffer, socketKernel)
  unfoldable pub preguntar : Cpu D → MensajeCpu → Option (Cpu D × MensajeKernel)
  preguntar c m = recibir_de_kernel (enviar_a_kernel c m)

  unfoldable pub con_estado : Cpu D → ℕ → Cpu D
  con_estado c estado = record c { estado_rafaga = estado }

  -- Every answer but `continuar` ends the program.
  unfoldable pub salvo_continuar : Cpu D → MensajeKernel → Cpu D
  salvo_continuar c continuar = c
  salvo_continuar c _ = con_estado c rafaga_fin_programa

  -- `basura` is what the local `valorVariable` holds when nothing has been assigned to it.
  unfoldable pub obtener_valor_compartida :
      Cpu D → (variable : Bytes) (basura : ℕ) → Option (Cpu D × ℕ)
  obtener_valor_compartida c variable basura = do
    (c', m) ← preguntar c (obtener_valor_var_compartida variable)
    some (elim m [
      | valor_compartida valor ↦ (c', valor)
      | _ ↦ (con_estado c' rafaga_fin_programa, basura)
    ])

  unfoldable pub asignar_valor_compartida :
      Cpu D → (variable : Bytes) (valor : ℕ) → Option (Cpu D × ℕ)
  asignar_valor_compartida c variable valor = do
    (c', m) ←
        preguntar c (asignar_valor_var_compartida (record { nombre = variable; valor = valor }))
    some (salvo_continuar c' m, valor)

  unfoldable pub imprimir : Cpu D → (valor_mostrar : ℕ) → Option (Cpu D)
  imprimir c valor_mostrar =
      if c.estado_rafaga == rafaga_fin_programa
      then some c
      else (do (c', m) ← preguntar c (imprimir_kernel valor_mostrar); some (salvo_continuar c' m))

  unfoldable pub imprimir_texto : Cpu D → (texto : Bytes) → Option (Cpu D)
  imprimir_texto c texto = do
    (c', m) ← preguntar c (imprimir_texto_kernel texto)
    some (salvo_continuar c' m)

  -- There is no answer.
  unfoldable pub entrada_salida : Cpu D → (dispositivo : Bytes) (tiempo : ℕ) → Cpu D
  entrada_salida c dispositivo tiempo =
      con_estado
        (enviar_a_kernel c (
          entrada_salida_kernel
            (record { dispositivo = dispositivo; tiempo = tiempo; pcb = c.pcb })))
        rafaga_entrada_salida

  unfoldable pub wait_ansisop : Cpu D → (identificador_semaforo : Bytes) → Option (Cpu D)
  wait_ansisop c identificador_semaforo = do
    (c', m) ← preguntar c (wait_kernel (record { semaforo = identificador_semaforo; pcb = c.pcb }))
    some (elim m [ continuar ↦ c' | _ ↦ con_estado c' rafaga_wait_bloqueado ])

  unfoldable pub signal_ansisop : Cpu D → (identificador_semaforo : Bytes) → Option (Cpu D)
  signal_ansisop c identificador_semaforo = do
    (c', m) ← preguntar c (signal_kernel identificador_semaforo)
    some (elim m [ terminar ↦ con_estado c' rafaga_fin_programa | _ ↦ c' ])
