-- ===== src/Kernel/Planificador/Dispositivos.antt =====
-- `mandarADispositivo` and `fnDispositivos` of pcp/PlanificadorPCP_th.c and the queues.
use tp_sistemas_operativos_u.Base.{
  ◌⊎◌, ℕ, suc, ◌-◌, ◌≡◌, ◌<◌, refl, ap, ◌∙◌, inl, inr, true, ltb, Option, some, List, [], ◌∷◌,
  Bytes, length, length-append, find, arith, Option-cases,
}
use tp_sistemas_operativos_u.Commons.{ListLib}
use tp_sistemas_operativos_u.Protocolo.{EntradaSalida, bloquear, terminar}
use tp_sistemas_operativos_u.Kernel.{Kernel, Dispositivo, ProgramaRetardo}
use tp_sistemas_operativos_u.Kernel.Planificador.{
  cambiar_primero, mismo_texto, busca_prog, al_final_de_ready, mandar_a_dispositivo,
  fn_dispositivos,
}
use tp_sistemas_operativos_u.Kernel.Planificador.Cuentas.{
  EstaContado, length-erase_first, cambiar_primero-All, find-All, cambiar-en_dispositivos,
}
use tp_sistemas_operativos_u.Kernel.Planificador.Invariante.{
  IsKernel, EnEjecucion, al_final_de_ready-IsKernel,
}

module _ (lib : (A : Type 0) → ListLib A) where
  -- Sending a program in execution to a device, known or not, keeps the invariant of the queues.
  pub mandar_a_dispositivo-IsKernel :
      (n : ℕ) (k : Kernel) (es : EntradaSalida) (programa : ℕ)
      → IsKernel n k
      → EnEjecucion k (k.programas programa).pcb.pid
      → IsKernel n (mandar_a_dispositivo lib k es programa).0
  unfolding mandar_a_dispositivo EnEjecucion
  mandar_a_dispositivo-IsKernel n k es programa i h =
      let q = λ (d : Dispositivo). mismo_texto d.sz_dispositivo es.dispositivo in
      let p = busca_prog k (k.programas programa).pcb.pid in
      let l = length-erase_first p k.lista_exec h in
      let nuevo : ProgramaRetardo = record { programa = programa; retardo = es.tiempo } in
      elim (Option-cases (find q k.list_dispos)) [
        | inl nada ↦
            rw (mandar_a_dispositivo, (lib Dispositivo).list_find_lem q k.list_dispos, nada) i
        | inr (d, hay) ↦
            let b : d.semaforo ≡ length d.prog_encolados =
              unfold EstaContado in find-All EstaContado q k.list_dispos d hay i.dispositivos in
            let a =
              ap length ((lib ProgramaRetardo).list_add_lem d.prog_encolados nuevo)
              ∙ length-append d.prog_encolados (nuevo ∷ []) in
            let f = λ (d : Dispositivo). record d {
              prog_encolados = (lib ProgramaRetardo).list_add d.prog_encolados nuevo;
              semaforo = suc d.semaforo;
            } in
            rw
              (
                mandar_a_dispositivo,
                (lib Dispositivo).list_find_lem q k.list_dispos,
                hay,
                (lib ℕ).list_remove_by_condition_lem p k.lista_exec,
              )
              (record {
                listos = i.listos;
                salidas = i.salidas;
                semaforos = i.semaforos;
                dispositivos =
                    cambiar_primero-All EstaContado q f k.list_dispos d hay
                      (unfold EstaContado in omega (arith, a, b)) i.dispositivos;
                nivel =
                    omega (arith, i.nivel, l, a, cambiar-en_dispositivos q f k.list_dispos d hay);
              })
      ]

  -- Under the invariant of the queues a device whose semaphore is not 0 has a program in its queue;
  -- its thread makes that program ready and keeps the invariant.
  pub fn_dispositivos-IsKernel :
      (n : ℕ) (k : Kernel) (nombre : Bytes) (d : Dispositivo)
      → IsKernel n k
      → find (λ d. mismo_texto d.sz_dispositivo nombre) k.list_dispos ≡ some d
      → 0 < d.semaforo
      → (k' : Kernel) × (fn_dispositivos lib k nombre ≡ some k') × IsKernel n k'
  unfolding fn_dispositivos
  fn_dispositivos-IsKernel n k nombre d i hay abierto =
      let b : d.semaforo ≡ length d.prog_encolados =
        unfold EstaContado in find-All EstaContado _ k.list_dispos d hay i.dispositivos in
      sale d.prog_encolados refl b
    where
      f : Dispositivo → Dispositivo
      f d = record d {
        prog_encolados = ((lib ProgramaRetardo).list_remove 0 d.prog_encolados).1;
        semaforo = d.semaforo - 1;
      }

      sale :
          (ps : List ProgramaRetardo)
          → d.prog_encolados ≡ ps
          → d.semaforo ≡ length d.prog_encolados
          → (k' : Kernel) × (fn_dispositivos lib k nombre ≡ some k') × IsKernel n k'
      sale [] e b =
          let l : length d.prog_encolados ≡ 0 = ap length e in absurd (omega (arith, l, b, abierto))
      sale (p ∷ ps) e b =
          let q : (lib ProgramaRetardo).list_remove 0 d.prog_encolados ≡ (some p, ps) =
            ap ((lib ProgramaRetardo).list_remove 0) e
            ∙ (lib ProgramaRetardo).list_remove-zero (p ∷ ps) in
          let l : length d.prog_encolados ≡ suc (length ps) = ap length e in
          let m : length ((lib ProgramaRetardo).list_remove 0 d.prog_encolados).1 ≡ length ps =
            ap (λ (x : Option ProgramaRetardo × List ProgramaRetardo). length x.1) q in
          let hayla : ltb 0 d.semaforo ≡ true = ground (arith, abierto) in
          let t = λ (d : Dispositivo). mismo_texto d.sz_dispositivo nombre in
          let k1 = record k { list_dispos = cambiar_primero t f k.list_dispos } in
          (
            al_final_de_ready lib k1 p.programa,
            rw
                (
                  fn_dispositivos,
                  (lib Dispositivo).list_find_lem t k.list_dispos,
                  hay,
                  hayla,
                  ap (λ (x : Option ProgramaRetardo × List ProgramaRetardo). x.0) q,
                )
                refl,
            al_final_de_ready-IsKernel lib n k1 p.programa i.listos i.salidas i.semaforos
                (cambiar_primero-All EstaContado t f k.list_dispos d hay
                  (unfold EstaContado in omega (arith, m, l, b)) i.dispositivos)
                (omega (arith, i.nivel, m, l, cambiar-en_dispositivos t f k.list_dispos d hay)),
          )

  -- An unknown device changes nothing.
  pub mandar_a_dispositivo-cases :
      (k : Kernel) (es : EntradaSalida) (programa : ℕ)
      → (mandar_a_dispositivo lib k es programa ≡ (k, terminar))
        ⊎ ((mandar_a_dispositivo lib k es programa).1 ≡ bloquear)
  unfolding mandar_a_dispositivo
  mandar_a_dispositivo-cases k es programa =
      let q = λ (d : Dispositivo). mismo_texto d.sz_dispositivo es.dispositivo in
      elim (Option-cases (find q k.list_dispos)) [
        | inl nada ↦
            inl (
              rw (mandar_a_dispositivo, (lib Dispositivo).list_find_lem q k.list_dispos, nada) refl)
        | inr (d, hay) ↦
            inr
              (rw (mandar_a_dispositivo, (lib Dispositivo).list_find_lem q k.list_dispos, hay) refl)
      ]
