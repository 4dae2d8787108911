-- ===== src/Umv/Arranque.antt =====
-- The start of the memory server in `main` of umv/umvMain.c, and the rounds of its threads, those of
-- the clients and that of the console, in any order.
use tp_sistemas_operativos_u.Base.{
  ℕ, ◌+◌, ◌<◌, ◌≤◌, ◌≡◌, ◌≢◌, ◌⊎◌, inl, inr, refl, sym, ◌∙◌, ◌==◌, if◌then◌else◌, Option, none,
  some, List, [], ◌∷◌, Bytes, All, IsWord, arith, Bool-cases, Option-cases, some_inj,
}
use mathlib.Core.Path.{subst}
use mathlib.Core.Option.{none-ne-some}
use tp_sistemas_operativos_u.Commons.{ListLib}
use tp_sistemas_operativos_u.Memoria.{Memoria}
use tp_sistemas_operativos_u.Mensajes.{Conexion, Pedido, de_tamanio}
use tp_sistemas_operativos_u.Mensajes.Pedidos.{deserealizar_operacion}
use tp_sistemas_operativos_u.Umv.{Segmento, Umv, wf, ff}
use tp_sistemas_operativos_u.Umv.Conexiones.{aceptada, atender_handshake, atender, despachar}
use tp_sistemas_operativos_u.Umv.Conexiones.Estado.{IsServidor}
use tp_sistemas_operativos_u.Umv.Conexiones.Sesion.{despachar-IsServidor}
use tp_sistemas_operativos_u.Umv.Consola.{Servidor, Noticia, pfn_consola}
use tp_sistemas_operativos_u.Umv.Consola.Palabras.{ConsolaLib, psz_generar_argumentos}
use tp_sistemas_operativos_u.Umv.Consola.Estado.{PideAlgo, pfn_consola-IsServidor}

-- "FF" and "wF"; a global variable that is not set is 0.
unfoldable pub leer_algoritmo : ConsolaLib → Bytes → ℕ
leer_algoritmo lib texto =
    if lib.string_equals_ignore_case texto (70 ∷ 70 ∷ [])
    then ff
    else if lib.string_equals_ignore_case texto (119 ∷ 70 ∷ [])
    then wf
    else 0

-- With what `malloc` has returned and left there, and what `random()` will give.
unfoldable pub iniciar_umv :
    ConsolaLib
    → (cant_mem retardo : ℕ) (alg_mem : Bytes) (p_inicio_memoria : ℕ) → Memoria
    → List ℕ
    → Servidor
iniciar_umv lib cant_mem retardo alg_mem p_inicio_memoria memoria azar = record {
  umv = record {
    inicio_memoria = p_inicio_memoria;
    cant_mem = cant_mem;
    alg_mem = leer_algoritmo lib alg_mem;
    segmentos = [];
    memoria = memoria;
    azar = azar;
  };
  retardo = retardo;
}

-- The server with the connections of its clients, by the number of their thread.
pub record Sesiones : Type 0 where
  pub servidor : Servidor
  pub conexiones : ℕ → Option Conexion

abbrev pub con_umv : Sesiones → Umv → Sesiones
con_umv s u = record s { servidor = record s.servidor { umv = u } }

-- A request that the buffer holds does not ask for a segment of no bytes.
unfoldable pub NoPideNada : Conexion → Bytes → Type 0
NoPideNada c buffer =
    (p : Pedido) (c' : Conexion)
    → deserealizar_operacion buffer c ≡ some (p, c')
    → p.estructura ≢ de_tamanio 0

module _ (consola : ConsolaLib) (listas : ListLib Segmento) where
  -- A client is accepted, a client's message is answered, or a line is typed.
  pub data Ronda (s : Sesiones) (t : Sesiones) : Type 0 where
    saluda :
        (i : ℕ) (nueva c : Conexion) (buffer respuesta : Bytes)
        → atender_handshake s.servidor.umv nueva buffer ≡ some (aceptada c respuesta)
        → t ≡ record s { conexiones = λ j. if j == i then some c else s.conexiones j }
        → Ronda s t
    contesta :
        (i : ℕ) (c : Conexion) (buffer : Bytes) (r : Umv × Conexion × Bytes)
        → s.conexiones i ≡ some c
        → NoPideNada c buffer
        → atender listas s.servidor.umv c buffer ≡ some r
        → t
          ≡ record (con_umv s r.0) { conexiones = λ j. if j == i then some r.1 else s.conexiones j }
        → Ronda s t
    teclea :
        (linea : Bytes) (r : Servidor × List Noticia)
        → ((ps : List Bytes) → psz_generar_argumentos consola linea ≡ some ps → PideAlgo consola ps)
        → pfn_consola consola listas s.servidor linea ≡ some r
        → t ≡ record s { servidor = r.0 }
        → Ronda s t

  pub data Rondas (s : Sesiones) : Sesiones → Type 0 where
    ninguna : Rondas s s
    otra : {t u : Sesiones} → Rondas s t → Ronda t u → Rondas s u

  atender-IsServidor :
      (u : Umv) (c : Conexion) (buffer : Bytes) (r : Umv × Conexion × Bytes)
      → IsServidor u
      → NoPideNada c buffer
      → atender listas u c buffer ≡ some r
      → IsServidor r.0
  unfolding atender NoPideNada
  atender-IsServidor u c buffer r i h e = elim (Option-cases (deserealizar_operacion buffer c)) [
    | inl nada ↦
        let f : atender listas u c buffer ≡ none = rw (atender, nada) refl in
        absurd (none-ne-some r (sym f ∙ e))
    | inr ((p, c'), hay) ↦ elim (Option-cases (despachar listas u c' p)) [
      | inl nada ↦
          let f : atender listas u c buffer ≡ none = rw (atender, hay, nada) refl in
          absurd (none-ne-some r (sym f ∙ e))
      | inr (q, sale) ↦
          let f : atender listas u c buffer ≡ some (q.0, c', q.1) = rw (atender, hay, sale) refl in
          subst (λ (x : Umv × Conexion × Bytes). IsServidor x.0) (some_inj (sym f ∙ e))
            (despachar-IsServidor listas u c' p q i (h p c' hay) sale)
    ]
  ]

  Ronda-IsServidor :
      (s t : Sesiones) → IsServidor s.servidor.umv → Ronda s t → IsServidor t.servidor.umv
  Ronda-IsServidor s t i (saluda j nueva c buffer respuesta e f) =
      subst (λ (x : Sesiones). IsServidor x.servidor.umv) (sym f) i
  Ronda-IsServidor s t i (contesta j c buffer r e h g f) =
      subst (λ (x : Sesiones). IsServidor x.servidor.umv) (sym f)
        (atender-IsServidor s.servidor.umv c buffer r i h g)
  Ronda-IsServidor s t i (teclea linea r h g f) =
      subst (λ (x : Sesiones). IsServidor x.servidor.umv) (sym f)
        (pfn_consola-IsServidor consola listas s.servidor linea r i h g)

  Rondas-IsServidor :
      {s t : Sesiones} → IsServidor s.servidor.umv → Rondas s t → IsServidor t.servidor.umv
  Rondas-IsServidor i ninguna = i
  Rondas-IsServidor i (otra {t} {u} r p) = Ronda-IsServidor t u (Rondas-IsServidor i r) p

  leer_algoritmo_lem :
      (texto : Bytes) → (leer_algoritmo consola texto ≡ wf) ⊎ (leer_algoritmo consola texto ≡ ff)
  unfolding leer_algoritmo
  leer_algoritmo_lem texto =
      elim (Bool-cases (consola.string_equals_ignore_case texto (70 ∷ 70 ∷ []))) [
        | inl si ↦ inr (rw (leer_algoritmo, si) refl)
        | inr otro ↦ elim (Bool-cases (consola.string_equals_ignore_case texto (119 ∷ 70 ∷ []))) [
          | inl si ↦ inl (rw (leer_algoritmo, otro, si) refl)
          | inr ninguno ↦ inl (rw (leer_algoritmo, otro, ninguno) refl)
        ]
      ]

  -- From the start of the server, with a block that `malloc` has given inside the address space, of
  -- less than 2 ^ 31 bytes, and whatever algorithm the configuration names, every order of rounds
  -- of the clients and commands of the console, of which none asks for a segment of no bytes, leaves
  -- a valid table, one of the two algorithms, and no two segments with one logical address.
  pub Rondas-iniciar_umv :
      (cant_mem retardo : ℕ) (alg_mem : Bytes) (p_inicio_memoria : ℕ) (memoria : Memoria)
      (azar : List ℕ) (t : Sesiones)
      → 0 < p_inicio_memoria
      → p_inicio_memoria + cant_mem < 4294967296
      → cant_mem < 2147483648
      → All (λ r. IsWord r) azar
      → Rondas
          (record {
            servidor = iniciar_umv consola cant_mem retardo alg_mem p_inicio_memoria memoria azar;
            conexiones = λ i. none;
          })
          t
      → IsServidor t.servidor.umv
  Rondas-iniciar_umv cant_mem retardo alg_mem p memoria azar t a b c w r =
      let o : p ≤ p + cant_mem = omega arith in
      let i : IsServidor (iniciar_umv consola cant_mem retardo alg_mem p memoria azar).umv =
        unfold iniciar_umv in
        record {
          valida = record { no_nulo = a; cabe = b; con_signo = c; ordenados = o };
          algoritmo = leer_algoritmo_lem alg_mem;
          sorteos = w;
          unicas = tt;
        } in
      Rondas-IsServidor i r
