-- ===== src/Umv/Consola/Palabras.antt =====
-- The words of a line in umv/consola/consola.c.
use tp_sistemas_operativos_u.Base.{
  ℕ, zero, suc, ◌-◌, ◌==◌, leb, ◌&&◌, Bool, true, false, if◌then◌else◌, ◌>>=◌, Option, none, some,
  List, [], ◌∷◌, length, Bytes,
}

-- What the console calls of other libraries: `string_split` without its closing NULL, the numbers as
-- the bits of an `int`, and what `sscanf` with "%x" reads.
pub record ConsolaLib : Type 0 where
  pub string_split : Bytes → List Bytes
  pub string_equals_ignore_case : Bytes → Bytes → Bool
  pub string_substring : Bytes → ℕ → ℕ → Bytes
  pub atoi : Bytes → ℕ
  pub sscanf_x : Bytes → ℕ

unfoldable pub fn_reemp_caracter_por_blanco : Bytes → (caracter : ℕ) → Bytes
fn_reemp_caracter_por_blanco [] caracter = []
fn_reemp_caracter_por_blanco (c ∷ cs) caracter =
    (if caracter == c then 32 else c) ∷ fn_reemp_caracter_por_blanco cs caracter

-- `szString[strlen(szString) - 1] = '\0'`
unfoldable pub sin_ultimo : Bytes → Bytes
sin_ultimo [] = []
sin_ultimo (c ∷ []) = []
sin_ultimo (c ∷ (d ∷ cs)) = c ∷ sin_ultimo (d ∷ cs)

-- Before an empty line there is a byte that is not the line's.
unfoldable pub psz_generar_argumentos : ConsolaLib → Bytes → Option (List Bytes)
psz_generar_argumentos lib [] = none
psz_generar_argumentos lib (c ∷ cs) =
    some (lib.string_split (fn_reemp_caracter_por_blanco (sin_ultimo (c ∷ cs)) 9))

-- `none` for the closing NULL, and past it.
unfoldable pub szfn_parametro_num : List Bytes → ℕ → Option Bytes
szfn_parametro_num [] i = none
szfn_parametro_num (p ∷ ps) zero = some p
szfn_parametro_num (p ∷ ps) (suc i) = szfn_parametro_num ps i

-- The words behind the command; there is one word at least.
unfoldable pub ifn_parametros : List Bytes → ℕ
ifn_parametros ps = length ps - 1

abbrev pub isdigit : ℕ → Bool
isdigit c = leb 48 c && leb c 57

-- Some character is a digit.
unfoldable pub bfn_is_digit_string : Bytes → Bool
bfn_is_digit_string [] = false
bfn_is_digit_string (c ∷ cs) =
    let resto = bfn_is_digit_string cs in if isdigit c then true else resto

unfoldable pub str_to_t_puntero : ConsolaLib → Bytes → ℕ
str_to_t_puntero lib texto =
    if lib.string_equals_ignore_case (lib.string_substring texto 0 2) (48 ∷ 120 ∷ [])
    then lib.sscanf_x texto
    else lib.atoi texto

-- The tests joined by `&&`, of the parameters with these numbers: the first that fails says so, and
-- the ones behind it are not read.
unfoldable pub validar_variables : List Bytes → List ℕ → Option Bool
validar_variables ps [] = some true
validar_variables ps (i ∷ is) = do
  p ← szfn_parametro_num ps i
  let resto = validar_variables ps is
  (if bfn_is_digit_string p then resto else some false)

-- What `printf` shows of a text.
unfoldable pub hasta_nulo : Bytes → Bytes
hasta_nulo [] = []
hasta_nulo (c ∷ cs) = let resto = hasta_nulo cs in if c == 0 then [] else c ∷ resto
