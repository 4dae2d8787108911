-- ===== src/Kernel/Planificador/Carrera.antt =====
-- `fnLock` of pcp/PlanificadorPCP_th.c in its two halves: it changes and tests the value of the semaphore
-- while it holds no mutex, so that another thread's `fnUnlock` may come before the program is in the
-- queue.
use tp_sistemas_operativos_u.Base.{
  ℕ, zero, suc, ◌≡◌, ◌<◌, ◌>>=◌, refl, ap, ◌∙◌, inl, inr, Option-cases, ◌+◌, Bool, true, false,
  ◌&&◌, ltb, if◌then◌else◌, Option, none, some, List, [], ◌∷◌, ◌++◌, Bytes, length, arith,
  Bool-cases,
}
use tp_sistemas_operativos_u.Commons.{ListLib}
use tp_sistemas_operativos_u.Protocolo.{MsjWait, MensajeKernel, continuar, bloquear}
use tp_sistemas_operativos_u.Kernel.{
  ℤ, pos, Kernel, Semaforo, suc_int, pred_int, es_negativo, no_es_positivo,
}
use tp_sistemas_operativos_u.Kernel.Planificador.{
  busca_prog, cambiar_primero, mismo_texto, con_pcb, con_semaforo, fn_lock, fn_unlock,
}
use tp_sistemas_operativos_u.Kernel.Planificador.Orden.{semaforo_de, find-cambiar_primero}
use tp_sistemas_operativos_u.Kernel.Planificador.Despertar.{senales}

-- Two changes of the same semaphore, one after the other.
cambiar_primero-dos :
    (nombre : Bytes) (f g : Semaforo → Semaforo) (ss : List Semaforo)
    → ((t : Semaforo) → (f t).sz_semaforo ≡ t.sz_semaforo)
    → cambiar_primero
        (λ s. mismo_texto s.sz_semaforo nombre)
        g
        (cambiar_primero (λ s. mismo_texto s.sz_semaforo nombre) f ss)
      ≡ cambiar_primero (λ s. mismo_texto s.sz_semaforo nombre) (λ s. g (f s)) ss
unfolding cambiar_primero
cambiar_primero-dos nombre f g [] h = refl
cambiar_primero-dos nombre f g (t ∷ ts) h = elim (Bool-cases (mismo_texto t.sz_semaforo nombre)) [
  | inl si ↦ let igual = ap (λ x. mismo_texto x nombre) (h t) ∙ si in rw (si, igual) refl
  | inr otro ↦ rw (otro, otro) (ap (◌∷◌ t) (cambiar_primero-dos nombre f g ts h))
]

module _ (lib : (A : Type 0) → ListLib A) where
  -- Up to the test: whether the program is to block.
  unfoldable pub fn_lock_resta : Kernel → MsjWait → Option (Kernel × Bool)
  fn_lock_resta k parametro = do
    semaf ←
        (lib Semaforo).list_find (λ s. mismo_texto s.sz_semaforo parametro.semaforo) k.list_smfrs
    some (
      con_semaforo k parametro.semaforo (λ s. record s { i_semaforo = pred_int s.i_semaforo }),
      es_negativo (pred_int semaf.i_semaforo) && ltb 0 (length k.lista_exec),
    )

  -- The body of the `if`.
  unfoldable pub fn_lock_encola : Kernel → MsjWait → ℕ → Kernel
  fn_lock_encola k parametro programa =
      con_pcb
        (con_semaforo
          (record k {
            lista_exec =
                ((lib ℕ).list_remove_by_condition (busca_prog k (k.programas programa).pcb.pid)
                  k.lista_exec).1;
          })
          parametro.semaforo
          (λ s. record s { prog_encolados = (lib ℕ).list_add s.prog_encolados programa }))
        programa parametro.pcb

  -- The two halves of a wait, and what other threads do between them.
  unfoldable pub fn_lock_con :
      (entre : Kernel → Option Kernel)
      → Kernel
      → MsjWait
      → ℕ
      → Option (Kernel × Option MensajeKernel)
  fn_lock_con entre k parametro programa = elim (fn_lock_resta k parametro) [
    | none ↦ some (k, none)
    | some r ↦ (do
      k' ← entre r.0
      some (
          if r.1
          then (fn_lock_encola k' parametro programa, some bloquear)
          else (k', some continuar)))
  ]

  -- With nothing between them the two halves are the call.
  pub fn_lock_con-some :
      (k : Kernel) (w : MsjWait) (programa : ℕ)
      → fn_lock_con some k w programa ≡ some (fn_lock lib k w programa)
  unfolding fn_lock_con fn_lock_resta fn_lock_encola fn_lock con_pcb con_semaforo busca_prog
  fn_lock_con-some k w programa =
      let q = λ (s : Semaforo). mismo_texto s.sz_semaforo w.semaforo in
      elim (Option-cases ((lib Semaforo).list_find q k.list_smfrs)) [
        | inl nada ↦ rw (fn_lock_con, fn_lock_resta, fn_lock, nada) refl
        | inr (s, hay) ↦
            elim (Bool-cases (es_negativo (pred_int s.i_semaforo) && ltb 0 (length k.lista_exec))) [
              | inl si ↦
                  rw
                    (
                      fn_lock_con,
                      fn_lock_resta,
                      fn_lock,
                      hay,
                      si,
                      cambiar_primero-dos w.semaforo
                          (λ (s : Semaforo). record s { i_semaforo = pred_int s.i_semaforo })
                          (λ (s : Semaforo). record s {
                            prog_encolados = (lib ℕ).list_add s.prog_encolados programa;
                          })
                          k.list_smfrs (λ t. refl),
                    )
                    refl
              | inr otro ↦ rw (fn_lock_con, fn_lock_resta, fn_lock, hay, otro) refl
            ]
      ]

  -- A signal that wakes nobody.
  fn_unlock-sube :
      (k : Kernel) (nombre : Bytes) (s : Semaforo)
      → semaforo_de k nombre ≡ some s
      → (no_es_positivo (suc_int s.i_semaforo) && ltb 0 (length s.prog_encolados)) ≡ false
      → fn_unlock lib k nombre
        ≡ some (
          con_semaforo k nombre (λ s. record s { i_semaforo = suc_int s.i_semaforo }),
          some continuar,
        )
  unfolding fn_unlock
  fn_unlock-sube k nombre s hay c =
      rw
        (
          fn_unlock,
          (lib Semaforo).list_find_lem (λ (s : Semaforo). mismo_texto s.sz_semaforo nombre)
              k.list_smfrs,
          hay,
          c,
        )
        refl

  -- Where the value is not below 0, signals only count it up, whoever is in the queue.
  senales-pos :
      (n m : ℕ) (k : Kernel) (nombre : Bytes) (s : Semaforo)
      → semaforo_de k nombre ≡ some s
      → s.i_semaforo ≡ pos m
      → (k' : Kernel) × (senales lib n k nombre ≡ some k')
        × (semaforo_de k' nombre ≡ some (record s { i_semaforo = pos (m + n) }))
        × (k'.lista_ready ≡ k.lista_ready)
  unfolding senales con_semaforo suc_int no_es_positivo
  senales-pos zero m k nombre s hay v =
      let z : m ≡ m + 0 = omega arith in
      (k, refl, hay ∙ (λ j. some (record s { i_semaforo = (v ∙ ap pos z) j })), refl)
  senales-pos (suc n) m k nombre s hay v =
      let c : (no_es_positivo (suc_int s.i_semaforo) && ltb 0 (length s.prog_encolados)) ≡ false =
        ap (λ (x : ℤ). no_es_positivo (suc_int x) && ltb 0 (length s.prog_encolados)) v in
      let k1 = con_semaforo k nombre (λ s. record s { i_semaforo = suc_int s.i_semaforo }) in
      let u = fn_unlock-sube k nombre s hay c in
      let s1 : Semaforo = record s { i_semaforo = suc_int s.i_semaforo } in
      let h1 : semaforo_de k1 nombre ≡ some s1 =
        find-cambiar_primero nombre (λ s. record s { i_semaforo = suc_int s.i_semaforo })
          k.list_smfrs s (λ t. refl) hay in
      let r = senales-pos n (suc m) k1 nombre s1 h1 (ap suc_int v) in
      let z : suc m + n ≡ m + suc n = omega arith in
      (r.0, rw (u, r.1) refl, r.2 ∙ ap (λ (x : ℕ). some (record s { i_semaforo = pos x })) z, r.3)

  pub fn_lock_con-perdida :
      (k : Kernel) (w : MsjWait) (programa : ℕ) (s : Semaforo) (n : ℕ)
      → semaforo_de k w.semaforo ≡ some s
      → s.i_semaforo ≡ pos 0
      → s.prog_encolados ≡ []
      → 0 < length k.lista_exec
      → (fn_lock_con some k w programa ≡ some (fn_lock lib k w programa))
        × (k' : Kernel) × (fn_lock_con
              (λ x. fn_unlock lib x w.semaforo >>= λ (y, respuesta). some y)
              k
              w
              programa
            ≡ some (k', some bloquear))
        × (k'' : Kernel) × (senales lib n k' w.semaforo ≡ some k'')
        × (k''.lista_ready ≡ k.lista_ready)
        × (semaforo_de k'' w.semaforo
            ≡ some (record s { i_semaforo = pos n; prog_encolados = programa ∷ [] }))
  unfolding fn_lock_con fn_lock_resta fn_lock_encola con_semaforo con_pcb es_negativo pred_int
      suc_int no_es_positivo
  fn_lock_con-perdida k w programa s n hay v e exec =
      let q = λ (s : Semaforo). mismo_texto s.sz_semaforo w.semaforo in
      let a : (lib Semaforo).list_find q k.list_smfrs ≡ some s =
        (lib Semaforo).list_find_lem q k.list_smfrs ∙ hay in
      let lleno : ltb 0 (length k.lista_exec) ≡ true = ground (arith, exec) in
      let si : (es_negativo (pred_int s.i_semaforo) && ltb 0 (length k.lista_exec)) ≡ true =
        ap (λ (x : ℤ). es_negativo (pred_int x) && ltb 0 (length k.lista_exec)) v ∙ lleno in
      let resta = λ (s : Semaforo). record s { i_semaforo = pred_int s.i_semaforo } in
      let suma = λ (s : Semaforo). record s { i_semaforo = suc_int s.i_semaforo } in
      let pone = λ (s : Semaforo). record s {
        prog_encolados = (lib ℕ).list_add s.prog_encolados programa;
      } in
      let k1 = con_semaforo k w.semaforo resta in
      let h1 : semaforo_de k1 w.semaforo ≡ some (resta s) =
        find-cambiar_primero w.semaforo resta k.list_smfrs s (λ t. refl) hay in
      let nadie : (no_es_positivo (suc_int (pred_int s.i_semaforo))
            && ltb 0 (length s.prog_encolados))
          ≡ false =
        (λ j. no_es_positivo (suc_int (pred_int (v j))) && ltb 0 (length (e j))) in
      let u = fn_unlock-sube k1 w.semaforo (resta s) h1 nadie in
      let k2 = con_semaforo k1 w.semaforo suma in
      let h2 : semaforo_de k2 w.semaforo ≡ some (suma (resta s)) =
        find-cambiar_primero w.semaforo suma k1.list_smfrs (resta s) (λ t. refl) h1 in
      let k' = fn_lock_encola k2 w programa in
      let h3 : semaforo_de k' w.semaforo ≡ some (pone (suma (resta s))) =
        find-cambiar_primero w.semaforo pone k2.list_smfrs (suma (resta s)) (λ t. refl) h2 in
      let r =
        senales-pos n 0 k' w.semaforo (pone (suma (resta s))) h3
          (ap (λ (x : ℤ). suc_int (pred_int x)) v) in
      let z : 0 + n ≡ n = omega arith in
      let uno : (lib ℕ).list_add s.prog_encolados programa ≡ programa ∷ [] =
        (lib ℕ).list_add_lem s.prog_encolados programa ∙ ap (λ x. x ++ programa ∷ []) e in
      (
        fn_lock_con-some k w programa,
        k',
        rw (fn_lock_con, fn_lock_resta, a, si, u) refl,
        r.0,
        r.1,
        r.3,
        r.2 ∙ (λ j. some (record s { i_semaforo = pos (z j); prog_encolados = uno j })),
      )
