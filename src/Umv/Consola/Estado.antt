-- ===== src/Umv/Consola/Estado.antt =====
-- The commands of umv/consola/consola.c and the state of the server.
use tp_sistemas_operativos_u.Base.{
  ◌&&◌, true, ◌⊎◌, ℕ, ◌<◌, ◌≡◌, ◌==◌, ◌&&◌, ltb, refl, sym, inl, inr, none, some, List, [], ◌∷◌,
  Bytes, ◌++◌, ◌∙◌, some_inj, Option-cases, Bool-cases, SiSale-some, no_sale, SiSale, SiSale->>=_eq,
  SiSale-if, SiSale-si, sale,
}
use mathlib.Core.Path.{subst}
use mathlib.Core.Option.{none-ne-some}
use tp_sistemas_operativos_u.Commons.{ListLib}
use tp_sistemas_operativos_u.Mensajes.{AlmacenarBytes}
use tp_sistemas_operativos_u.Umv.{Segmento, Umv, wf, ff}
use tp_sistemas_operativos_u.Umv.Compactacion.{fn_compactar}
use tp_sistemas_operativos_u.Umv.Compactacion.Correcta.{fn_compactar-IsValid, fn_compactar-vistas}
use tp_sistemas_operativos_u.Umv.Creacion.{DireccionesUnicas}
use tp_sistemas_operativos_u.Umv.Conexiones.Estado.{
  IsServidor, almacenar_bytes-IsServidor, eliminar_segmentos-IsServidor,
  generar_segmento-IsServidor,
}
use tp_sistemas_operativos_u.Umv.Consola.{
  aviso_de_escritura, almacenar_bytes, tipo_invalido, aviso_de_lectura, solicitar_bytes,
  segmentos_eliminados, no_es_numerico, algoritmo_inexistente, eliminar_segmentos,
  algoritmo_worst_fit, retardo_configurado, consola_deserializar, comando_invalido,
  algoritmo_first_fit, generar_segmento, Servidor, Noticia, fn_consola_retardo,
  fn_consola_compactar, fn_consola_algoritmo, fn_consola_dump, fn_consola_enviar_bytes,
  fn_consola_solic_bytes, fn_consola_crear_segmento, fn_consola_destruir_segmentos,
  despachar_comando, pfn_consola, aviso_de_lectura, tipo_invalido,
}
use tp_sistemas_operativos_u.Umv.Consola.Palabras.{
  str_to_t_puntero, bfn_is_digit_string, ifn_parametros, ConsolaLib, szfn_parametro_num,
  psz_generar_argumentos, validar_variables,
}

fn_compactar-IsServidor : (u : Umv) → IsServidor u → IsServidor (fn_compactar u)
fn_compactar-IsServidor u s = record {
  valida = fn_compactar-IsValid u s.valida;
  algoritmo = unfold fn_compactar in s.algoritmo;
  sorteos = unfold fn_compactar in s.sorteos;
  unicas = subst DireccionesUnicas (sym (fn_compactar-vistas u s.valida)) s.unicas;
}

-- A command `cs` with two parameters asks for a size other than 0.
unfoldable pub PideAlgo : ConsolaLib → List Bytes → Type 0
PideAlgo lib [] = Unit {0}
PideAlgo lib (comando ∷ resto) =
    (lib.string_equals_ignore_case comando (99 ∷ 115 ∷ [])
        && (ifn_parametros (comando ∷ resto) == 2))
      ≡ true
    → (t : Bytes) → szfn_parametro_num (comando ∷ resto) 2 ≡ some t
    → 0 < lib.atoi t

abbrev Queda : Servidor × List Noticia → Type 0
Queda r = IsServidor r.0.umv

module _ (lib : ConsolaLib) (listas : ListLib Segmento) where
  crear-Queda :
      (s : Servidor) (ps : List Bytes)
      → IsServidor s.umv
      → ((t : Bytes) → szfn_parametro_num ps 2 ≡ some t → 0 < lib.atoi t)
      → SiSale Queda (fn_consola_crear_segmento lib listas s ps)
  unfolding fn_consola_crear_segmento
  crear-Queda s ps i h = SiSale->>=_eq Queda (szfn_parametro_num ps 1) _ (λ pid e.
      SiSale->>=_eq Queda (szfn_parametro_num ps 2) _ (λ tamanio f.
        SiSale->>=_eq Queda (generar_segmento listas s.umv (lib.atoi pid) (lib.atoi tamanio)) _
          (λ r g. SiSale->>=_eq Queda (consola_deserializar r.1) _ (λ m k.
            SiSale->>=_eq Queda _ _ (λ a l.
              sale Queda (record s { umv = r.0 }, a ∷ [])
                (generar_segmento-IsServidor listas s.umv (lib.atoi pid) (lib.atoi tamanio) r i
                  (h tamanio f) g))))))

  enviar-Queda :
      (s : Servidor) (ps : List Bytes)
      → IsServidor s.umv
      → SiSale Queda (fn_consola_enviar_bytes lib listas s ps)
  unfolding fn_consola_enviar_bytes
  enviar-Queda s ps i = SiSale->>=_eq Queda (validar_variables ps (1 ∷ 3 ∷ 4 ∷ [])) _ (λ valido v.
      SiSale-if Queda valido _ _
        (SiSale-if Queda (ifn_parametros ps == 5) _ _
          (SiSale->>=_eq Queda (szfn_parametro_num ps 1) _ (λ programa e.
            SiSale->>=_eq Queda (szfn_parametro_num ps 2) _ (λ base f.
              SiSale->>=_eq Queda (szfn_parametro_num ps 3) _ (λ offset g.
                SiSale->>=_eq Queda (szfn_parametro_num ps 4) _ (λ tamanio h.
                  SiSale->>=_eq Queda (szfn_parametro_num ps 5) _ (λ texto k.
                    let st : AlmacenarBytes = record {
                      base = str_to_t_puntero lib base;
                      offset = lib.atoi offset;
                      tamanio = lib.atoi tamanio;
                      buffer = texto ++ 0 ∷ [];
                    } in
                    let r = almacenar_bytes listas s.umv (lib.atoi programa) st in
                    SiSale->>=_eq Queda (consola_deserializar r.1) _ (λ m l.
                      SiSale->>=_eq Queda (aviso_de_escritura lib listas texto (lib.atoi tamanio) m)
                        _
                        (λ a n.
                          sale Queda (record s { umv = r.0 }, a ∷ [])
                            (almacenar_bytes-IsServidor listas s.umv (lib.atoi programa) st
                              i)))))))))
          (no_sale Queda))
        (sale Queda (s, tipo_invalido ∷ []) i))

  solicitar-Queda :
      (s : Servidor) (ps : List Bytes)
      → IsServidor s.umv
      → SiSale Queda (fn_consola_solic_bytes lib listas s ps)
  unfolding fn_consola_solic_bytes
  solicitar-Queda s ps i =
      SiSale-if Queda (ltb 3 (ifn_parametros ps) && ltb (ifn_parametros ps) 6) _ _
        (SiSale->>=_eq Queda (validar_variables ps (1 ∷ 2 ∷ 3 ∷ 4 ∷ [])) _ (λ valido v.
          SiSale-if Queda valido _ _
            (SiSale->>=_eq Queda (szfn_parametro_num ps 1) _ (λ programa e.
              SiSale->>=_eq Queda (szfn_parametro_num ps 2) _ (λ base f.
                SiSale->>=_eq Queda (szfn_parametro_num ps 3) _ (λ offset g.
                  SiSale->>=_eq Queda (szfn_parametro_num ps 4) _ (λ tamanio h.
                    SiSale->>=_eq Queda
                      (consola_deserializar (
                        solicitar_bytes listas s.umv (lib.atoi programa) (record {
                          base = str_to_t_puntero lib base;
                          offset = lib.atoi offset;
                          tamanio = lib.atoi tamanio;
                        })))
                      _
                      (λ m l.
                        SiSale->>=_eq Queda (aviso_de_lectura lib listas (lib.atoi tamanio) m) _
                          (λ a n. sale Queda (s, _) i)))))))
            (no_sale Queda)))
        (no_sale Queda)

  retardo-Queda :
      (s : Servidor) (ps : List Bytes)
      → IsServidor s.umv
      → SiSale Queda (fn_consola_retardo lib s ps)
  unfolding fn_consola_retardo
  retardo-Queda s ps i = SiSale->>=_eq Queda (szfn_parametro_num ps 1) _ (λ t e.
      elim (Bool-cases (bfn_is_digit_string t)) [
        | inl si ↦
            rw si (sale Queda (record s { retardo = lib.atoi t }, retardo_configurado ∷ []) i)
        | inr otro ↦ rw otro (sale Queda (s, no_es_numerico ∷ []) i)
      ])

  con_algoritmo-IsServidor :
      (u : Umv) (alg : ℕ)
      → (alg ≡ wf) ⊎ (alg ≡ ff)
      → IsServidor u
      → IsServidor (record u { alg_mem = alg })
  con_algoritmo-IsServidor u alg h i = record {
    valida = record {
      no_nulo = i.valida.no_nulo;
      cabe = i.valida.cabe;
      con_signo = i.valida.con_signo;
      ordenados = i.valida.ordenados;
    };
    algoritmo = h;
    sorteos = i.sorteos;
    unicas = i.unicas;
  }

  algoritmo-Queda :
      (s : Servidor) (ps : List Bytes)
      → IsServidor s.umv
      → SiSale Queda (fn_consola_algoritmo lib s ps)
  unfolding fn_consola_algoritmo
  algoritmo-Queda s ps i = SiSale->>=_eq Queda (szfn_parametro_num ps 1) _ (λ t e.
      elim (Bool-cases (lib.string_equals_ignore_case t (70 ∷ 70 ∷ []))) [
        | inl si ↦ rw si (
            sale Queda (record s { umv = record s.umv { alg_mem = ff } }, algoritmo_first_fit ∷ [])
              (con_algoritmo-IsServidor s.umv ff (inr refl) i))
        | inr otro ↦ elim (Bool-cases (lib.string_equals_ignore_case t (87 ∷ 70 ∷ []))) [
          | inl si ↦
              rw (otro, si)
                (sale Queda
                  (record s { umv = record s.umv { alg_mem = wf } }, algoritmo_worst_fit ∷ [])
                  (con_algoritmo-IsServidor s.umv wf (inl refl) i))
          | inr ninguno ↦ rw (otro, ninguno) (sale Queda (s, algoritmo_inexistente ∷ []) i)
        ]
      ])

  destruir-Queda :
      (s : Servidor) (ps : List Bytes)
      → IsServidor s.umv
      → SiSale Queda (fn_consola_destruir_segmentos lib listas s ps)
  unfolding fn_consola_destruir_segmentos
  destruir-Queda s ps i = SiSale->>=_eq Queda (szfn_parametro_num ps 1) _ (λ t e.
      elim (Bool-cases (bfn_is_digit_string t)) [
        | inl si ↦ rw si (
            sale Queda
              (
                record s { umv = (eliminar_segmentos listas s.umv (lib.atoi t)).0 },
                segmentos_eliminados ∷ [],
              )
              (eliminar_segmentos-IsServidor listas s.umv (lib.atoi t) i))
        | inr otro ↦ rw otro (sale Queda (s, tipo_invalido ∷ []) i)
      ])

  compactar-Queda :
      (s : Servidor) (ps : List Bytes) → IsServidor s.umv → Queda (fn_consola_compactar s ps)
  unfolding fn_consola_compactar
  compactar-Queda s ps i = elim (Bool-cases (1 == ifn_parametros ps)) [
    | inl si ↦ rw (fn_consola_compactar, si) i
    | inr otro ↦ rw (fn_consola_compactar, otro) (fn_compactar-IsServidor s.umv i)
  ]

  dump-Queda : (s : Servidor) (ps : List Bytes) → IsServidor s.umv → Queda (fn_consola_dump s ps)
  unfolding fn_consola_dump
  dump-Queda s ps i = elim (Bool-cases (ltb 0 (ifn_parametros ps))) [
    | inl si ↦ rw (fn_consola_dump, si) i
    | inr otro ↦ rw (fn_consola_dump, otro) i
  ]

  -- The state of a server is kept by every command that has an outcome, a wrong one included, where
  -- `cs` does not ask for a size of 0.
  pub despachar_comando-IsServidor :
      (s : Servidor) (comando : Bytes) (ps : List Bytes)
      → IsServidor s.umv
      → ((lib.string_equals_ignore_case comando (99 ∷ 115 ∷ []) && (ifn_parametros ps == 2)) ≡ true
          → (t : Bytes) → szfn_parametro_num ps 2 ≡ some t
          → 0 < lib.atoi t)
      → SiSale Queda (despachar_comando lib listas s comando ps)
  unfolding despachar_comando
  despachar_comando-IsServidor s comando ps i h = SiSale-if Queda _ _ _ (retardo-Queda s ps i) (
      SiSale-if Queda _ _ _ (solicitar-Queda s ps i) (
        SiSale-if Queda _ _ _ (sale Queda (fn_consola_dump s ps) (dump-Queda s ps i)) (
          SiSale-if Queda _ _ _ (sale Queda (fn_consola_compactar s ps) (compactar-Queda s ps i)) (
            SiSale-if Queda _ _ _ (algoritmo-Queda s ps i) (
              SiSale-if Queda _ _ _ (enviar-Queda s ps i) (
                SiSale-si Queda _ _ _ (λ e. crear-Queda s ps i (h e))
                  (SiSale-if Queda _ _ _ (destruir-Queda s ps i)
                    (sale Queda (s, comando_invalido ∷ []) i))))))))

  -- The same for one round of the console, with a typed line.
  pub pfn_consola-IsServidor :
      (s : Servidor) (linea : Bytes) (r : Servidor × List Noticia)
      → IsServidor s.umv
      → ((ps : List Bytes) → psz_generar_argumentos lib linea ≡ some ps → PideAlgo lib ps)
      → pfn_consola lib listas s linea ≡ some r
      → IsServidor r.0.umv
  unfolding pfn_consola PideAlgo
  pfn_consola-IsServidor s linea r i h e = elim (Option-cases (psz_generar_argumentos lib linea)) [
    | inl nada ↦
        let f : pfn_consola lib listas s linea ≡ none = rw (pfn_consola, nada) refl in
        absurd (none-ne-some r (sym f ∙ e))
    | inr (ps, hay) ↦ ronda ps (h ps hay) (rw (pfn_consola, hay) at e)
  ]
    where
      ronda :
          (ps : List Bytes)
          → PideAlgo lib ps
          → elim ps [
            | [] ↦ some (s, [])
            | comando ∷ resto ↦ despachar_comando lib listas s comando (comando ∷ resto)
          ]
            ≡ some r
          → IsServidor r.0.umv
      ronda [] p x = subst Queda (some_inj x) i
      ronda (comando ∷ resto) p x =
          SiSale-some Queda (despachar_comando lib listas s comando (comando ∷ resto)) r x
            (despachar_comando-IsServidor s comando (comando ∷ resto) i p)
