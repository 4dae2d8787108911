-- ===== src/Kernel/Sistema/Salidas.antt =====
-- What `mandarADispositivo` and `fnDispositivos` of pcp/PlanificadorPCP_th.c do to the addresses in the queues.
use tp_sistemas_operativos_u.Base.{
  ℕ, suc, ◌+◌, ◌-◌, ◌≡◌, refl, sym, ◌∙◌, ltb, Bool, true, none, some, find, arith, Bool-cases,
  Option-cases, some_inj, inl, inr, Bytes,
}
use mathlib.Core.Path.{subst}
use mathlib.Core.Option.{none-ne-some}
use tp_sistemas_operativos_u.Commons.{ListLib}
use tp_sistemas_operativos_u.Protocolo.{EntradaSalida}
use tp_sistemas_operativos_u.Kernel.{Kernel, Dispositivo, ProgramaRetardo}
use tp_sistemas_operativos_u.Kernel.Planificador.{
  mismo_texto, busca_prog, al_final_de_ready, mandar_a_dispositivo, fn_dispositivos,
  cambiar_primero,
}
use tp_sistemas_operativos_u.Kernel.Sistema.Sumas.{
  uno, suma, suma-erase_first, suma-cambiar_primero,
}
use tp_sistemas_operativos_u.Kernel.Sistema.Cuenta.{
  SeEncuentra, quita_primero, Conserva-refl, Conserva-Mueve, Conserva, en_dispositivo, en_ejecucion,
  en_colas, pid_de, Mueve, sale-otros, list_add-uno_mas, al_final_de_ready-en_colas,
}

module _ (lib : (A : Type 0) → ListLib A) where
  -- The device's queue takes the program that leaves the execution list.
  pub mandar_a_dispositivo-Mueve :
      (k : Kernel) (programa : ℕ) (e : EntradaSalida)
      → SeEncuentra k programa
      → Mueve k programa (mandar_a_dispositivo lib k e programa).0
  unfolding mandar_a_dispositivo SeEncuentra en_ejecucion suma
  mandar_a_dispositivo-Mueve k programa es hay =
      let q = λ (d : Dispositivo). mismo_texto d.sz_dispositivo es.dispositivo in
      elim (Option-cases (find q k.list_dispos)) [
        | inl nada ↦
            rw (mandar_a_dispositivo, (lib Dispositivo).list_find_lem q k.list_dispos, nada)
              (Conserva-Mueve k programa _ (Conserva-refl k))
        | inr (d, disp) ↦
            let b = busca_prog k (pid_de k programa) in
            let nuevo : ProgramaRetardo = record { programa = programa; retardo = es.tiempo } in
            let f : Dispositivo → Dispositivo = λ d. record d {
              prog_encolados = (lib ProgramaRetardo).list_add d.prog_encolados nuevo;
              semaforo = suc d.semaforo;
            } in
            rw
              (
                mandar_a_dispositivo,
                (lib Dispositivo).list_find_lem q k.list_dispos,
                disp,
                (lib ℕ).list_remove_by_condition_lem b k.lista_exec,
              )
              (record {
                pids = λ p. refl;
                cuenta = λ p.
                    let a = suma-cambiar_primero (en_dispositivo p) q f k.list_dispos d disp in
                    let c : en_dispositivo p (f d) ≡ en_dispositivo p d + uno p programa =
                      unfold en_dispositivo in
                      list_add-uno_mas lib (λ (r : ProgramaRetardo). uno p r.programa)
                        d.prog_encolados nuevo in
                    let s = suma-erase_first (uno p) b k.lista_exec programa hay in
                    unfold en_colas en_ejecucion in omega (arith, a, c, s);
                otros = λ p o. sale-otros k (pid_de k programa) programa p hay o;
              })
      ]

  pub fn_dispositivos-Conserva :
      (k : Kernel) (nombre : Bytes) (k' : Kernel)
      → fn_dispositivos lib k nombre ≡ some k'
      → Conserva k k'
  unfolding fn_dispositivos
  fn_dispositivos-Conserva k nombre k' h =
      let q = λ (d : Dispositivo). mismo_texto d.sz_dispositivo nombre in
      let busca = (lib Dispositivo).list_find_lem q k.list_dispos in
      elim (Option-cases (find q k.list_dispos)) [
        | inl nada ↦
            let e : fn_dispositivos lib k nombre ≡ none = rw (fn_dispositivos, busca, nada) refl in
            absurd (none-ne-some k' (sym e ∙ h))
        | inr (d, disp) ↦ elim (Bool-cases (ltb 0 d.semaforo)) [
          | inr cero ↦
              let e : fn_dispositivos lib k nombre ≡ none =
                rw (fn_dispositivos, busca, disp, cero) refl in
              absurd (none-ne-some k' (sym e ∙ h))
          | inl si ↦ sale d disp si
        ]
      ]
    where
      q : Dispositivo → Bool
      q d = mismo_texto d.sz_dispositivo nombre

      f : Dispositivo → Dispositivo
      f d = record d {
        prog_encolados = ((lib ProgramaRetardo).list_remove 0 d.prog_encolados).1;
        semaforo = d.semaforo - 1;
      }

      sale :
          (d : Dispositivo)
          → find q k.list_dispos ≡ some d
          → ltb 0 d.semaforo ≡ true
          → Conserva k k'
      sale d disp si =
          let busca = (lib Dispositivo).list_find_lem q k.list_dispos in
          elim (Option-cases ((lib ProgramaRetardo).list_remove 0 d.prog_encolados).0) [
            | inl vacia ↦
                let e : fn_dispositivos lib k nombre ≡ none =
                  rw (fn_dispositivos, busca, disp, si, vacia) refl in
                absurd (none-ne-some k' (sym e ∙ h))
            | inr (x, primero) ↦
                let k0 : Kernel = record k { list_dispos = cambiar_primero q f k.list_dispos } in
                let k1 : Kernel = al_final_de_ready lib k0 x.programa in
                let e : fn_dispositivos lib k nombre ≡ some k1 =
                  rw (fn_dispositivos, busca, disp, si, primero) refl in
                let m : Conserva k k1 = record {
                  pids = λ p. unfold al_final_de_ready in refl;
                  cuenta = λ p.
                      let a = al_final_de_ready-en_colas lib k0 x.programa p in
                      let b = suma-cambiar_primero (en_dispositivo p) q f k.list_dispos d disp in
                      let c : uno p x.programa + en_dispositivo p (f d) ≡ en_dispositivo p d =
                        unfold en_dispositivo in
                        quita_primero lib (λ (r : ProgramaRetardo). uno p r.programa)
                          d.prog_encolados x primero in
                      let g : en_colas p k0 + en_dispositivo p d
                          ≡ en_colas p k + en_dispositivo p (f d) =
                        unfold en_colas en_ejecucion in omega (arith, b) in
                      omega (arith, a, c, g);
                  ejecucion = λ p. unfold al_final_de_ready en_ejecucion in refl;
                } in
                subst (Conserva k) (some_inj (sym e ∙ h)) m
          ]
