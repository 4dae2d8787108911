-- ===== src/Cpu/Acuerdo.antt =====
-- A primitive of a CPU together with the thread of the kernel that serves that CPU.
use tp_sistemas_operativos_u.Base.{
  ℕ, ◌≡◌, refl, sym, ap, ◌∙◌, ◌>>=◌, Bool, true, false, Option, some, Option-cases, inl, inr, List,
  [], ◌∷◌, ◌++◌, Bytes,
}
use mathlib.Core.Path.{subst}
use mathlib.Core.Option.{some-injective, none-ne-some}
use tp_sistemas_operativos_u.Commons.{ListLib}
use tp_sistemas_operativos_u.Protocolo.{
  Pcb, MensajeCpu, MensajeKernel, continuar, bloquear, ok_kernel, primer_msj, atende_proceso,
  terminar, valor_compartida, obtener_valor_var_compartida, asignar_valor_var_compartida,
  imprimir_kernel, imprimir_texto_kernel, entrada_salida_kernel, wait_kernel, signal_kernel,
}
use tp_sistemas_operativos_u.Kernel.{Kernel}
use tp_sistemas_operativos_u.Kernel.Conexion.{
  imprimir as imprimir_consola, Hilo, atendiendo, esperando, terminado, Vuelta, controlar,
  o_terminar, seguir_tras_wait, terminar_y_esperar,
}
use tp_sistemas_operativos_u.Kernel.Planificador.{
  con_pcb, obtener_variable, asignar_variable, mover_a_exit, fn_lock, fn_unlock,
  mandar_a_dispositivo,
}
use tp_sistemas_operativos_u.Cpu.{Cpu, rafaga_fin_rafaga}
use tp_sistemas_operativos_u.Cpu.Nucleo.{
  enviar_a_kernel, recibir_de_kernel, preguntar, con_estado, salvo_continuar,
  obtener_valor_compartida, asignar_valor_compartida, imprimir, imprimir_texto, entrada_salida,
  wait_ansisop, signal_ansisop,
}
use tp_sistemas_operativos_u.Cpu.Rafaga.{avisa}

-- The primitives that ask the kernel, with their arguments.
pub data Primitiva : Type 0 where
  obtener_compartida : Bytes → Primitiva
  asignar_compartida : Bytes → ℕ → Primitiva
  mostrar : ℕ → Primitiva
  mostrar_texto : Bytes → Primitiva
  usar_dispositivo : Bytes → ℕ → Primitiva
  esperar_semaforo : Bytes → Primitiva
  dar_semaforo : Bytes → Primitiva

unfoldable pub ejecutar_primitiva : {D : Type 0} → Cpu D → Primitiva → Option (Cpu D)
ejecutar_primitiva c (obtener_compartida nombre) = do
  (c', valor) ← obtener_valor_compartida c nombre 0
  some c'
ejecutar_primitiva c (asignar_compartida nombre valor) = do
  (c', valor) ← asignar_valor_compartida c nombre valor
  some c'
ejecutar_primitiva c (mostrar valor) = imprimir c valor
ejecutar_primitiva c (mostrar_texto texto) = imprimir_texto c texto
ejecutar_primitiva c (usar_dispositivo dispositivo tiempo) =
    some (entrada_salida c dispositivo tiempo)
ejecutar_primitiva c (esperar_semaforo semaforo) = wait_ansisop c semaforo
ejecutar_primitiva c (dar_semaforo semaforo) = signal_ansisop c semaforo

-- What each sends.
unfoldable pub mensaje_de : Pcb → Primitiva → MensajeCpu
mensaje_de pcb (obtener_compartida nombre) = obtener_valor_var_compartida nombre
mensaje_de pcb (asignar_compartida nombre valor) =
    asignar_valor_var_compartida (record { nombre = nombre; valor = valor })
mensaje_de pcb (mostrar valor) = imprimir_kernel valor
mensaje_de pcb (mostrar_texto texto) = imprimir_texto_kernel texto
mensaje_de pcb (usar_dispositivo dispositivo tiempo) =
    entrada_salida_kernel (record { dispositivo = dispositivo; tiempo = tiempo; pcb = pcb })
mensaje_de pcb (esperar_semaforo semaforo) = wait_kernel (record { semaforo = semaforo; pcb = pcb })
mensaje_de pcb (dar_semaforo semaforo) = signal_kernel semaforo

-- The thread still serves the program, and the CPU will give its PCB back; or the thread waits for
-- another program, and the CPU will send nothing more of this one.
unfoldable pub Acuerdo : Hilo → (estado_rafaga : ℕ) → Type 0
Acuerdo (atendiendo programa) estado = avisa estado ≡ true
Acuerdo esperando estado = avisa estado ≡ false
Acuerdo terminado estado = ⊥

-- The CPU has sent one message and read all that it was sent.
pub record Dialogo {D : Type 0} (c : Cpu D) (hilo : Hilo) (m : MensajeCpu) (r : Option (Cpu D))
    : Type 0 where
  pub despues : Cpu D
  pub termina : r ≡ some despues
  pub pregunta : despues.enviados ≡ c.enviados ++ m ∷ []
  pub nada_queda : despues.recibidos ≡ []
  pub acuerdo : Acuerdo hilo despues.estado_rafaga

unfoldable enviada : {D : Type 0} → Cpu D → MensajeCpu → Cpu D
enviada c m = record c { enviados = c.enviados ++ m ∷ []; recibidos = [] }

sigue :
    {D : Type 0} (c : Cpu D) (m : MensajeCpu) (programa : ℕ) (r : Option (Cpu D))
    → c.estado_rafaga ≡ rafaga_fin_rafaga
    → r ≡ some (enviada c m)
    → Dialogo c (atendiendo programa) m r
unfolding enviada Acuerdo avisa
sigue c m programa r e h = record {
  despues = enviada c m;
  termina = h;
  pregunta = refl;
  nada_queda = refl;
  acuerdo = rw e refl;
}

acaba :
    {D : Type 0} (c : Cpu D) (m : MensajeCpu) (hilo : Hilo) (estado : ℕ) (r : Option (Cpu D))
    → r ≡ some (con_estado (enviada c m) estado)
    → Acuerdo hilo estado
    → Dialogo c hilo m r
unfolding enviada con_estado
acaba c m hilo estado r h a = record {
  despues = con_estado (enviada c m) estado;
  termina = h;
  pregunta = refl;
  nada_queda = refl;
  acuerdo = a;
}

wait_responde :
    {D : Type 0} (c : Cpu D) (programa : ℕ) (semaforo : Bytes) (m : MensajeKernel)
    → c.estado_rafaga ≡ rafaga_fin_rafaga
    → Dialogo c
        (seguir_tras_wait programa m)
        (mensaje_de c.pcb (esperar_semaforo semaforo))
        (ejecutar_primitiva (record c { recibidos = m ∷ [] }) (esperar_semaforo semaforo))
unfolding seguir_tras_wait mensaje_de ejecutar_primitiva wait_ansisop preguntar recibir_de_kernel
    enviar_a_kernel con_estado enviada Acuerdo avisa
wait_responde c programa semaforo continuar e = sigue c _ programa _ e refl
wait_responde c programa semaforo bloquear e = acaba c _ esperando 11 _ refl refl
wait_responde c programa semaforo ok_kernel e = acaba c _ esperando 11 _ refl refl
wait_responde c programa semaforo (primer_msj s) e = acaba c _ esperando 11 _ refl refl
wait_responde c programa semaforo (atende_proceso p) e = acaba c _ esperando 11 _ refl refl
wait_responde c programa semaforo (valor_compartida v) e = acaba c _ esperando 11 _ refl refl
wait_responde c programa semaforo terminar e = acaba c _ esperando 11 _ refl refl

signal_responde :
    {D : Type 0} (c : Cpu D) (programa : ℕ) (semaforo : Bytes) (m : MensajeKernel)
    → c.estado_rafaga ≡ rafaga_fin_rafaga
    → Dialogo c
        (atendiendo programa)
        (mensaje_de c.pcb (dar_semaforo semaforo))
        (ejecutar_primitiva (record c { recibidos = m ∷ [] }) (dar_semaforo semaforo))
unfolding mensaje_de ejecutar_primitiva signal_ansisop preguntar recibir_de_kernel enviar_a_kernel
    con_estado enviada Acuerdo avisa
signal_responde c programa semaforo continuar e = sigue c _ programa _ e refl
signal_responde c programa semaforo bloquear e = sigue c _ programa _ e refl
signal_responde c programa semaforo ok_kernel e = sigue c _ programa _ e refl
signal_responde c programa semaforo (primer_msj s) e = sigue c _ programa _ e refl
signal_responde c programa semaforo (atende_proceso p) e = sigue c _ programa _ e refl
signal_responde c programa semaforo (valor_compartida v) e = sigue c _ programa _ e refl
signal_responde c programa semaforo terminar e = acaba c _ (atendiendo programa) 8 _ refl refl

-- What the kernel answers may be read off its step.
con_respuesta :
    {D : Type 0} (c : Cpu D) (m : MensajeCpu) (p : Primitiva) {k' : Kernel} {hilo' : Hilo}
    {rs' : List MensajeKernel} {v : Option Vuelta}
    → v ≡ some (k', hilo', rs')
    → (k : Kernel) (hilo : Hilo) (rs : List MensajeKernel) → v ≡ some (k, hilo, rs)
    → Dialogo c hilo m (ejecutar_primitiva (record c { recibidos = rs }) p)
    → Dialogo c hilo' m (ejecutar_primitiva (record c { recibidos = rs' }) p)
con_respuesta c m p {k'} {hilo'} {rs'} {v} h k hilo rs q d =
    let e = some-injective (k, hilo, rs) (k', hilo', rs') (sym q ∙ h) in
    subst (λ x. Dialogo c x m (ejecutar_primitiva (record c { recibidos = rs' }) p))
      (ap (λ (x : Vuelta). x.1) e)
      (subst (λ r. Dialogo c hilo m (ejecutar_primitiva (record c { recibidos = r }) p))
        (ap (λ (x : Vuelta). x.2) e) d)

module _ (lib : (A : Type 0) → ListLib A) (dictionary_get : Bytes → Option ℕ) where
  -- The thread waits for another program, whether the device exists or not.
  tras_dispositivo :
      (k : Kernel) (programa : ℕ) (m : MensajeKernel) (v : Vuelta)
      → elim m [
        | terminar ↦ terminar_y_esperar lib dictionary_get k programa
        | _ ↦ some (k, esperando, [])
      ]
        ≡ some v
      → (k2 : Kernel) × (v ≡ (k2, esperando, []))
  unfolding terminar_y_esperar
  tras_dispositivo k programa continuar v h = (k, sym (some-injective _ _ h))
  tras_dispositivo k programa bloquear v h = (k, sym (some-injective _ _ h))
  tras_dispositivo k programa ok_kernel v h = (k, sym (some-injective _ _ h))
  tras_dispositivo k programa (primer_msj s) v h = (k, sym (some-injective _ _ h))
  tras_dispositivo k programa (atende_proceso p) v h = (k, sym (some-injective _ _ h))
  tras_dispositivo k programa (valor_compartida w) v h = (k, sym (some-injective _ _ h))
  tras_dispositivo k programa terminar v h = elim (Option-cases (mover_a_exit lib k programa)) [
    | inl falta ↦ absurd (none-ne-some _ (sym (rw falta refl) ∙ h))
    | inr (k2, hay) ↦ (k2, sym (some-injective _ _ (sym (rw hay refl) ∙ h)))
  ]

  -- Whatever primitive a running program executes, where the thread of the kernel has a step for its
  -- message and the CPU gets the answers of that step: the CPU sends that message alone and reads all
  -- the answers, and it will give the PCB back at the end of the burst if the thread still serves the
  -- program, and send no more of it if the thread waits for another.
  pub ejecutar_primitiva-controlar :
      {D : Type 0} (c : Cpu D) (k k' : Kernel) (programa : ℕ) (enviado : Bool) (p : Primitiva)
      (hilo : Hilo) (rs : List MensajeKernel)
      → c.estado_rafaga ≡ rafaga_fin_rafaga
      → controlar lib dictionary_get k programa enviado (mensaje_de c.pcb p) ≡ some (k', hilo, rs)
      → Dialogo c hilo (mensaje_de c.pcb p) (ejecutar_primitiva (record c { recibidos = rs }) p)
  unfolding controlar imprimir_consola mensaje_de ejecutar_primitiva obtener_valor_compartida
      asignar_valor_compartida imprimir imprimir_texto salvo_continuar preguntar recibir_de_kernel
      enviar_a_kernel con_estado enviada Acuerdo avisa entrada_salida
  ejecutar_primitiva-controlar c k k' programa enviado (obtener_compartida nombre) hilo rs e h =
      elim (Option-cases (obtener_variable dictionary_get k nombre)) [
        | inl falta ↦
            con_respuesta c _ (obtener_compartida nombre) h k (atendiendo programa) (terminar ∷ [])
              (rw (controlar, falta) refl) (acaba c _ (atendiendo programa) 8 _ refl refl)
        | inr (v, hay) ↦
            con_respuesta c _ (obtener_compartida nombre) h k (atendiendo programa)
              (valor_compartida v ∷ []) (rw (controlar, hay) refl) (sigue c _ programa _ e refl)
      ]
  ejecutar_primitiva-controlar c k k' programa enviado (asignar_compartida nombre valor) hilo rs e
        h =
      let r = asignar_variable dictionary_get k (record { nombre = nombre; valor = valor }) in
      elim (Option-cases r.1) [
        | inl falta ↦
            con_respuesta c _ (asignar_compartida nombre valor) h r.0 (atendiendo programa)
              (terminar ∷ []) (rw (controlar, falta) refl)
              (acaba c _ (atendiendo programa) 8 _ refl refl)
        | inr (v, hay) ↦
            con_respuesta c _ (asignar_compartida nombre valor) h r.0 (atendiendo programa)
              (continuar ∷ []) (rw (controlar, hay) refl) (sigue c _ programa _ e refl)
      ]
  ejecutar_primitiva-controlar c k k' programa true (mostrar valor) hilo rs e h =
      con_respuesta c _ (mostrar valor) h k (atendiendo programa) (continuar ∷ []) refl
        (sigue c _ programa _ e (rw e refl))
  ejecutar_primitiva-controlar c k k' programa false (mostrar valor) hilo rs e h =
      absurd (none-ne-some _ h)
  ejecutar_primitiva-controlar c k k' programa true (mostrar_texto texto) hilo rs e h =
      con_respuesta c _ (mostrar_texto texto) h k (atendiendo programa) (continuar ∷ []) refl
        (sigue c _ programa _ e refl)
  ejecutar_primitiva-controlar c k k' programa false (mostrar_texto texto) hilo rs e h =
      absurd (none-ne-some _ h)
  ejecutar_primitiva-controlar c k k' programa enviado (usar_dispositivo d t) hilo rs e h =
      let r =
        mandar_a_dispositivo lib (con_pcb k programa c.pcb)
          (record { dispositivo = d; tiempo = t; pcb = c.pcb }) programa in
      let g = tras_dispositivo r.0 programa r.1 (k', hilo, rs) h in
      con_respuesta c _ (usar_dispositivo d t) h g.0 esperando [] (h ∙ ap some g.1)
        (acaba c _ esperando 4 _ refl refl)
  ejecutar_primitiva-controlar c k k' programa enviado (esperar_semaforo semaforo) hilo rs e h =
      let r = fn_lock lib k (record { semaforo = semaforo; pcb = c.pcb }) programa in
      con_respuesta c _ (esperar_semaforo semaforo) h r.0
        (seguir_tras_wait programa (o_terminar r.1)) (o_terminar r.1 ∷ []) refl
        (wait_responde c programa semaforo (o_terminar r.1) e)
  ejecutar_primitiva-controlar c k k' programa enviado (dar_semaforo semaforo) hilo rs e h =
      elim (Option-cases (fn_unlock lib k semaforo)) [
        | inl falta ↦ absurd (none-ne-some _ (sym (rw (controlar, falta) refl) ∙ h))
        | inr (r, hay) ↦
            con_respuesta c _ (dar_semaforo semaforo) h r.0 (atendiendo programa)
              (o_terminar r.1 ∷ []) (rw (controlar, hay) refl)
              (signal_responde c programa semaforo (o_terminar r.1) e)
      ]
