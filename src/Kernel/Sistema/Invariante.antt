-- ===== src/Kernel/Sistema/Invariante.antt =====
-- What holds of the kernel's state (kernelMain.c) between two steps of its threads.
use tp_sistemas_operativos_u.Base.{
  ℕ, ◌+◌, ◌≡◌, ◌≢◌, ◌⊎◌, ◌≤◌, ◌<◌, refl, sym, ap, ◌∙◌, ◌==◌, Bool, true, some, List, [], ◌∷◌, any,
  arith, Bool-cases, inl, inr,
}
use mathlib.Core.Path.{subst}
use tp_sistemas_operativos_u.Kernel.{Kernel}
use tp_sistemas_operativos_u.Kernel.Planificador.{busca_prog}
use tp_sistemas_operativos_u.Kernel.Planificador.Cuentas.{find-any}
use tp_sistemas_operativos_u.Kernel.Planificador.Invariante.{IsKernel, EnEjecucion}
use tp_sistemas_operativos_u.Kernel.Conexion.{Hilo, Vuelta, esperando, atendiendo}
use tp_sistemas_operativos_u.Kernel.Carga.{NuevoProg}
use tp_sistemas_operativos_u.Kernel.Sistema.{Sistema, con_hilo, con_vuelta}
use tp_sistemas_operativos_u.Kernel.Sistema.Sumas.{uno, suma, suma-erase_first}
use tp_sistemas_operativos_u.Kernel.Sistema.Cuenta.{
  en_ejecucion, en_colas, pid_de, SeEncuentra, uno-mismo, busca_prog-pid,
}
use tp_sistemas_operativos_u.Kernel.Sistema.Turno.{EsTurno}

-- How often an address stands among the programs that have arrived and in the queues.
unfoldable pub apariciones : ℕ → Sistema → ℕ
apariciones p s =
    suma (λ (x : NuevoProg). uno p x.programa) s.lista_de_programas + en_colas p s.kernel

-- The queues count what they hold; a program that has been numbered keeps its number; each address
-- stands in one queue at most, and only that of a program that has arrived does; a thread that
-- serves a CPU serves a program in execution, and no other thread serves it.
pub record EsSistema (n : ℕ) (s : Sistema) : Type 0 where
  pub colas : IsKernel n s.kernel
  pub desde : 1000 ≤ s.pid_general
  pub pids : (p : ℕ) → 1000 < p → p ≤ s.pid_general → pid_de s.kernel p ≡ p
  pub una_vez : (p : ℕ) → apariciones p s ≤ 1
  pub rango : (p : ℕ) → 0 < apariciones p s → (1000 < p) × (p ≤ s.pid_general)
  pub servidos : (i p : ℕ) → s.hilos i ≡ atendiendo p → 0 < en_ejecucion p s.kernel
  pub exclusivos : (i j p : ℕ) → s.hilos i ≡ atendiendo p → s.hilos j ≡ atendiendo p → i ≡ j

pub ejecucion-apariciones : (s : Sistema) (p : ℕ) → en_ejecucion p s.kernel ≤ apariciones p s
unfolding apariciones en_colas
ejecucion-apariciones s p = omega arith

-- An address that is in a list is found there by what it has.
any-uno : (f : ℕ → Bool) (xs : List ℕ) (p : ℕ) → 0 < suma (uno p) xs → f p ≡ true → any f xs ≡ true
unfolding suma uno
any-uno f [] p h t = absurd (omega (arith, h))
any-uno f (x ∷ xs) p h t = elim (Bool-cases (p == x)) [
  | inl si ↦
      let e : p ≡ x = ground arith in
      let fx : f x ≡ true = subst (λ z. f z ≡ true) e t in rw fx refl
  | inr otro ↦
      let g : 0 < suma (uno p) xs = let g = rw otro at h in omega (arith, g) in
      let r = any-uno f xs p g t in ground (arith, r)
]

-- Of the programs that have arrived, in a queue, each has its own address as its number.
pub pid_propio :
    (n : ℕ) (s : Sistema) (p : ℕ)
    → EsSistema n s
    → 0 < en_ejecucion p s.kernel
    → pid_de s.kernel p ≡ p
pid_propio n s p i h =
    let r = i.rango p (omega (arith, h, ejecucion-apariciones s p)) in i.pids p r.0 r.1

-- The search by the number of a program in execution finds that program.
pub EsSistema-SeEncuentra :
    (n : ℕ) (s : Sistema) (p : ℕ)
    → EsSistema n s
    → 0 < en_ejecucion p s.kernel
    → EnEjecucion s.kernel (pid_de s.kernel p) × SeEncuentra s.kernel p
unfolding EnEjecucion SeEncuentra
EsSistema-SeEncuentra n s p i h =
    let k = s.kernel in
    let b = busca_prog k (pid_de k p) in
    let suyo : b p ≡ true = unfold busca_prog in ground arith in
    let esta : any b k.lista_exec ≡ true =
      any-uno b k.lista_exec p (unfold en_ejecucion in h) suyo in
    let r = find-any b k.lista_exec esta in
    let m : pid_de k r.0 ≡ pid_de k p = busca_prog-pid k (pid_de k p) r.0 r.1 in
    let c : 0 < en_ejecucion r.0 k =
      unfold en_ejecucion in
      omega (arith, suma-erase_first (uno r.0) b k.lista_exec r.0 r.1, uno-mismo r.0) in
    let mismo : r.0 ≡ p = sym (pid_propio n s r.0 i c) ∙ m ∙ pid_propio n s p i h in
    (esta, r.1 ∙ ap some mismo)

-- A step of a thread that serves no CPU: some addresses move from one queue to another, or leave.
pub sin_hilos-EsSistema :
    (n : ℕ) (s : Sistema) (k : Kernel) (l : List NuevoProg)
    → EsSistema n s
    → IsKernel n k
    → ((p : ℕ) → pid_de k p ≡ pid_de s.kernel p)
    → ((p : ℕ) → apariciones p (record s { kernel = k; lista_de_programas = l }) ≤ apariciones p s)
    → ((p : ℕ) → en_ejecucion p k ≡ en_ejecucion p s.kernel)
    → EsSistema n (record s { kernel = k; lista_de_programas = l })
sin_hilos-EsSistema n s k l i c pids menos igual = record {
  colas = c;
  desde = i.desde;
  pids = λ p a b. pids p ∙ i.pids p a b;
  una_vez = λ p. omega (arith, menos p, i.una_vez p);
  rango = λ p h. i.rango p (omega (arith, h, menos p));
  servidos = λ j p h. omega (arith, igual p, i.servidos j p h);
  exclusivos = i.exclusivos;
}

-- The thread that changed, or another one.
pub con_hilo-cases :
    (s : Sistema) (i j : ℕ) (h x : Hilo)
    → (con_hilo s i h).hilos j ≡ x
    → ((j ≡ i) × (h ≡ x)) ⊎ ((j ≢ i) × (s.hilos j ≡ x))
unfolding con_hilo
con_hilo-cases s i j h x e = elim (Bool-cases (j == i)) [
  | inl si ↦ inl (ground arith, rw si at e)
  | inr otro ↦ inr ((λ m. absurd (ground (arith, otro, m))), rw otro at e)
]

pub atendiendo-inj : (p q : ℕ) → atendiendo p ≡ atendiendo q → p ≡ q
atendiendo-inj p q e = ap (λ h. elim h [ atendiendo x ↦ x | _ ↦ p ]) e

-- A turn of the thread that serves `programa`.
pub con_vuelta-EsSistema :
    (n : ℕ) (s : Sistema) (i programa : ℕ) (v : Vuelta)
    → EsSistema n s
    → s.hilos i ≡ atendiendo programa
    → EsTurno s.kernel programa v
    → IsKernel n v.0
    → EsSistema n (con_vuelta s i v)
unfolding con_vuelta
con_vuelta-EsSistema n s i programa v h sirve t c = record {
  colas = unfold con_hilo in c;
  desde = unfold con_hilo in h.desde;
  pids = λ p a b. unfold con_hilo in (t.mueve.pids p ∙ h.pids p a (unfold con_hilo in b));
  una_vez = λ p. omega (arith, cuantas p, h.una_vez p);
  rango = λ p a. unfold con_hilo in h.rango p (omega (arith, a, cuantas p));
  servidos = sirven;
  exclusivos = λ j j' p a b. elim (con_hilo-cases s' i j v.1 (atendiendo p) a) [
    | inl (e, x) ↦ elim (con_hilo-cases s' i j' v.1 (atendiendo p) b) [
      | inl (f, y) ↦ e ∙ sym f
      | inr (f, y) ↦ e ∙ h.exclusivos i j' p (sirve ∙ ap atendiendo (sym ((t.sigue p x).0))) y
    ]
    | inr (e, x) ↦ elim (con_hilo-cases s' i j' v.1 (atendiendo p) b) [
      | inl (f, y) ↦ h.exclusivos j i p x (sirve ∙ ap atendiendo (sym ((t.sigue p y).0))) ∙ sym f
      | inr (f, y) ↦ h.exclusivos j j' p x y
    ]
  ];
}
  where
    s' : Sistema
    s' = record s { kernel = v.0 }

    cuantas : (p : ℕ) → apariciones p (con_hilo s' i v.1) ≡ apariciones p s
    cuantas p = let e = t.mueve.cuenta p in unfold apariciones con_hilo in omega (arith, e)

    sirven :
        (j p : ℕ)
        → (con_hilo s' i v.1).hilos j ≡ atendiendo p
        → 0 < en_ejecucion p (con_hilo s' i v.1).kernel
    sirven j p a = elim (con_hilo-cases s' i j v.1 (atendiendo p) a) [
      | inl (e, x) ↦
          let g = t.sigue p x in
          let m : en_ejecucion p s.kernel ≡ en_ejecucion programa s.kernel =
            ap (λ q. en_ejecucion q s.kernel) g.0 in
          unfold con_hilo in omega (arith, g.1 p, m, h.servidos i programa sirve)
      | inr (e, x) ↦
          let aun = h.servidos j p x in
          let otro : p ≢ programa = λ m. e (h.exclusivos j i p x (sirve ∙ ap atendiendo (sym m))) in
          let distinto : pid_de s.kernel p ≢ pid_de s.kernel programa = λ m. otro (
            sym (pid_propio n s p h aun)
            ∙ m
            ∙ pid_propio n s programa h (h.servidos i programa sirve)) in
          unfold con_hilo in omega (arith, t.mueve.otros p distinto, aun)
    ]

-- A thread takes a program that no other one serves and puts it into execution.
pub toma-EsSistema :
    (n : ℕ) (s : Sistema) (i programa : ℕ) (k : Kernel)
    → EsSistema n s
    → IsKernel n k
    → ((p : ℕ) → pid_de k p ≡ pid_de s.kernel p)
    → ((p : ℕ) → en_colas p k ≡ en_colas p s.kernel)
    → ((p : ℕ) → en_ejecucion p k ≡ en_ejecucion p s.kernel + uno p programa)
    → en_ejecucion programa s.kernel ≡ 0
    → EsSistema n (con_hilo (record s { kernel = k }) i (atendiendo programa))
toma-EsSistema n s i programa k h c pids igual ejec libre = record {
  colas = unfold con_hilo in c;
  desde = unfold con_hilo in h.desde;
  pids = λ p a b. unfold con_hilo in (pids p ∙ h.pids p a (unfold con_hilo in b));
  una_vez = λ p. omega (arith, cuantas p, h.una_vez p);
  rango = λ p a. unfold con_hilo in h.rango p (omega (arith, a, cuantas p));
  servidos = λ j p a. elim (con_hilo-cases s' i j (atendiendo programa) (atendiendo p) a) [
    | inl (e, x) ↦
        let m : uno p programa ≡ 1 = ap (uno p) (atendiendo-inj programa p x) ∙ uno-mismo p in
        unfold con_hilo in omega (arith, ejec p, m)
    | inr (e, x) ↦ unfold con_hilo in omega (arith, ejec p, h.servidos j p x)
  ];
  exclusivos = λ j j' p a b. elim (con_hilo-cases s' i j (atendiendo programa) (atendiendo p) a) [
    | inl (e, x) ↦ elim (con_hilo-cases s' i j' (atendiendo programa) (atendiendo p) b) [
      | inl (f, y) ↦ e ∙ sym f
      | inr (f, y) ↦ absurd (nadie j' p x y)
    ]
    | inr (e, x) ↦ elim (con_hilo-cases s' i j' (atendiendo programa) (atendiendo p) b) [
      | inl (f, y) ↦ absurd (nadie j p y x)
      | inr (f, y) ↦ h.exclusivos j j' p x y
    ]
  ];
}
  where
    s' : Sistema
    s' = record s { kernel = k }

    cuantas : (p : ℕ) → apariciones p (con_hilo s' i (atendiendo programa)) ≡ apariciones p s
    cuantas p = let e = igual p in unfold apariciones con_hilo in omega (arith, e)

    nadie : (j p : ℕ) → atendiendo programa ≡ atendiendo p → ¬ (s.hilos j ≡ atendiendo p)
    nadie j p x y =
        let m : en_ejecucion p s.kernel ≡ en_ejecucion programa s.kernel =
          ap (λ q. en_ejecucion q s.kernel) (sym (atendiendo-inj programa p x)) in
        omega (arith, h.servidos j p y, m, libre)

-- A thread begins to wait for a program.
pub conecta-EsSistema :
    (n : ℕ) (s : Sistema) (i : ℕ) → EsSistema n s → EsSistema n (con_hilo s i esperando)
conecta-EsSistema n s i h = record {
  colas = unfold con_hilo in h.colas;
  desde = unfold con_hilo in h.desde;
  pids = λ p a b. unfold con_hilo in h.pids p a (unfold con_hilo in b);
  una_vez = λ p. unfold con_hilo apariciones in (unfold apariciones in h.una_vez p);
  rango = λ p a. unfold con_hilo apariciones in h.rango p (unfold con_hilo apariciones in a);
  servidos = λ j p a. elim (con_hilo-cases s i j esperando (atendiendo p) a) [
    | inl (e, x) ↦ absurd (ground (arith, x))
    | inr (e, x) ↦ unfold con_hilo in h.servidos j p x
  ];
  exclusivos = λ j j' p a b. elim (con_hilo-cases s i j esperando (atendiendo p) a) [
    | inl (e, x) ↦ absurd (ground (arith, x))
    | inr (e, x) ↦ elim (con_hilo-cases s i j' esperando (atendiendo p) b) [
      | inl (f, y) ↦ absurd (ground (arith, y))
      | inr (f, y) ↦ h.exclusivos j j' p x y
    ]
  ];
}
