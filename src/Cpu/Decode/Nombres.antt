-- ===== src/Cpu/Decode/Nombres.antt =====
-- The texts that decode_instruccion reads back: cpu/src/cpu_decode.c.
use ssoo.Common.{
  ℕ, zero, suc, ◌≡◌, ◌≢◌, ◌≤◌, refl, ap, none, some, List, [], ◌∷◌, ◌++◌, length, All, true, false,
  Texto, strcmp, take-all, arith,
}
use ssoo.Cpu.Decode.{
  OpcodeCpu, obtener_opcode, opcode_cpu_to_string, es_delimitador, saltar, cortar, strtok,
  leer_parametros, decode_instruccion, cpu_max_parametros,
}

unfoldable pub Delimitadores : Texto → Type 0
Delimitadores d = All (λ c. es_delimitador c ≡ true) d

unfoldable pub SinDelimitadores : Texto → Type 0
SinDelimitadores p = All (λ c. es_delimitador c ≡ false) p

-- What follows a token: nothing, or a delimiter first.
pub Separado : Texto → Type 0
Separado [] = Unit {0}
Separado (c ∷ s) = es_delimitador c ≡ true

-- The text without its first character.
pub tras_uno : Texto → Texto
tras_uno [] = []
tras_uno (c ∷ s) = s

saltar-Delimitadores : (d s : Texto) → Delimitadores d → saltar (d ++ s) ≡ saltar s
unfolding Delimitadores saltar
saltar-Delimitadores [] s h = refl
saltar-Delimitadores (c ∷ d) s (h, hs) = rw h (saltar-Delimitadores d s hs)

cortar-palabra : (p s : Texto) → SinDelimitadores p → Separado s → cortar (p ++ s) ≡ (p, tras_uno s)
unfolding SinDelimitadores Separado cortar tras_uno
cortar-palabra [] [] h k = refl
cortar-palabra [] (c ∷ s) h k = rw k refl
cortar-palabra (c ∷ p) s (h, hs) k = rw (cortar-palabra p s hs k, h) refl

strtok-palabra :
    (d p s : Texto)
    → Delimitadores d
    → SinDelimitadores p
    → p ≢ []
    → Separado s
    → strtok (d ++ (p ++ s)) ≡ some (p, tras_uno s)
unfolding strtok saltar SinDelimitadores
strtok-palabra d [] s hd hp e k = elim (e refl) [ ]
strtok-palabra d (c ∷ p) s hd hp e k =
    rw (saltar-Delimitadores d ((c ∷ p) ++ s) hd, strtok, hp.0)
      (ap some (cortar-palabra (c ∷ p) s hp k))

strtok-fin : (d : Texto) → Delimitadores d → strtok d ≡ none
unfolding strtok saltar Delimitadores
strtok-fin [] h = refl
strtok-fin (c ∷ d) (h, hs) = rw (h, strtok) (strtok-fin d hs)

-- A parameter with the delimiters before it.
pub record Parametro : Type 0 where
  pub separacion : Texto
  pub texto : Texto

pub record ParametroBien (p : Parametro) : Type 0 where
  pub separa : Delimitadores p.separacion
  pub separado : p.separacion ≢ []
  pub sin_delimitadores : SinDelimitadores p.texto
  pub no_vacio : p.texto ≢ []
  pub corto : length p.texto ≤ 63

-- The parameters as they stand in the text, before the delimiters at its end.
unfoldable pub escritos : List Parametro → Texto → Texto
escritos [] cola = cola
escritos (p ∷ ps) cola = p.separacion ++ (p.texto ++ escritos ps cola)

pub textos : List Parametro → List Texto
textos [] = []
textos (p ∷ ps) = p.texto ∷ textos ps

Separado-append : (d s : Texto) → Delimitadores d → d ≢ [] → Separado (d ++ s)
unfolding Delimitadores Separado
Separado-append [] s h e = elim (e refl) [ ]
Separado-append (c ∷ d) s h e = h.0

Separado-Delimitadores : (d : Texto) → Delimitadores d → Separado d
unfolding Delimitadores Separado
Separado-Delimitadores [] h = tt
Separado-Delimitadores (c ∷ d) h = h.0

escritos-Separado :
    (ps : List Parametro) (cola : Texto)
    → All ParametroBien ps
    → Delimitadores cola
    → Separado (escritos ps cola)
unfolding escritos
escritos-Separado [] cola h k = Separado-Delimitadores cola k
escritos-Separado (p ∷ ps) cola h k =
    Separado-append p.separacion (p.texto ++ escritos ps cola) h.0.separa h.0.separado

Delimitadores-tras_uno : (d : Texto) → Delimitadores d → Delimitadores (tras_uno d)
unfolding Delimitadores tras_uno
Delimitadores-tras_uno [] h = h
Delimitadores-tras_uno (c ∷ d) h = h.1

tras_uno-append : (d s : Texto) → d ≢ [] → tras_uno (d ++ s) ≡ tras_uno d ++ s
unfolding tras_uno
tras_uno-append [] s e = elim (e refl) [ ]
tras_uno-append (c ∷ d) s e = refl

leer_parametros-fin : (libres : ℕ) (d : Texto) → Delimitadores d → leer_parametros libres d ≡ []
unfolding leer_parametros
leer_parametros-fin zero d h = refl
leer_parametros-fin (suc libres) d h = rw (strtok-fin d h, leer_parametros) refl

leer_parametros-uno :
    (libres : ℕ) (d p s : Texto)
    → Delimitadores d
    → SinDelimitadores p
    → p ≢ []
    → length p ≤ 63
    → Separado s
    → leer_parametros (suc libres) (d ++ (p ++ s)) ≡ p ∷ leer_parametros libres (tras_uno s)
unfolding leer_parametros
leer_parametros-uno libres d p s hd hp e k q =
    rw (strtok-palabra d p s hd hp e q, leer_parametros)
      (ap (λ (t : Texto). t ∷ leer_parametros libres (tras_uno s)) (take-all 63 p k))

leer_parametros-escritos :
    (libres : ℕ) (ps : List Parametro) (cola : Texto)
    → length ps ≤ libres
    → All ParametroBien ps
    → Delimitadores cola
    → leer_parametros libres (tras_uno (escritos ps cola)) ≡ textos ps
unfolding escritos textos
leer_parametros-escritos libres [] cola n h k =
    leer_parametros-fin libres (tras_uno cola) (Delimitadores-tras_uno cola k)
leer_parametros-escritos zero (p ∷ ps) cola n h k = absurd (omega arith)
leer_parametros-escritos (suc libres) (p ∷ ps) cola n (b, h) k =
    rw
      (
        tras_uno-append p.separacion (p.texto ++ escritos ps cola) b.separado,
        leer_parametros-uno libres (tras_uno p.separacion) p.texto (escritos ps cola)
            (Delimitadores-tras_uno p.separacion b.separa) b.sin_delimitadores b.no_vacio b.corto
            (escritos-Separado ps cola h k),
      )
      (ap (◌∷◌ p.texto) (leer_parametros-escritos libres ps cola (omega arith) h k))

obtener_opcode-opcode_cpu_to_string :
    (op : OpcodeCpu) → obtener_opcode (opcode_cpu_to_string op) ≡ op
unfolding obtener_opcode opcode_cpu_to_string strcmp
obtener_opcode-opcode_cpu_to_string OpcodeCpu.cpu_inst_noop = refl
obtener_opcode-opcode_cpu_to_string OpcodeCpu.cpu_inst_set = refl
obtener_opcode-opcode_cpu_to_string OpcodeCpu.cpu_inst_sum = refl
obtener_opcode-opcode_cpu_to_string OpcodeCpu.cpu_inst_sub = refl
obtener_opcode-opcode_cpu_to_string OpcodeCpu.cpu_inst_jnz = refl
obtener_opcode-opcode_cpu_to_string OpcodeCpu.cpu_inst_mutex_create = refl
obtener_opcode-opcode_cpu_to_string OpcodeCpu.cpu_inst_mutex_lock = refl
obtener_opcode-opcode_cpu_to_string OpcodeCpu.cpu_inst_mutex_unlock = refl
obtener_opcode-opcode_cpu_to_string OpcodeCpu.cpu_inst_sleep = refl
obtener_opcode-opcode_cpu_to_string OpcodeCpu.cpu_inst_stdout = refl
obtener_opcode-opcode_cpu_to_string OpcodeCpu.cpu_inst_stdin = refl
obtener_opcode-opcode_cpu_to_string OpcodeCpu.cpu_inst_mem_alloc = refl
obtener_opcode-opcode_cpu_to_string OpcodeCpu.cpu_inst_mem_free = refl
obtener_opcode-opcode_cpu_to_string OpcodeCpu.cpu_inst_init_proc = refl
obtener_opcode-opcode_cpu_to_string OpcodeCpu.cpu_inst_mov_in = refl
obtener_opcode-opcode_cpu_to_string OpcodeCpu.cpu_inst_mov_out = refl
obtener_opcode-opcode_cpu_to_string OpcodeCpu.cpu_inst_copy_mem = refl
obtener_opcode-opcode_cpu_to_string OpcodeCpu.cpu_inst_exit = refl
obtener_opcode-opcode_cpu_to_string OpcodeCpu.cpu_inst_unknown = refl

opcode_cpu_to_string-SinDelimitadores :
    (op : OpcodeCpu) → SinDelimitadores (opcode_cpu_to_string op) × (opcode_cpu_to_string op ≢ [])
unfolding SinDelimitadores opcode_cpu_to_string
opcode_cpu_to_string-SinDelimitadores OpcodeCpu.cpu_inst_noop = ground arith
opcode_cpu_to_string-SinDelimitadores OpcodeCpu.cpu_inst_set = ground arith
opcode_cpu_to_string-SinDelimitadores OpcodeCpu.cpu_inst_sum = ground arith
opcode_cpu_to_string-SinDelimitadores OpcodeCpu.cpu_inst_sub = ground arith
opcode_cpu_to_string-SinDelimitadores OpcodeCpu.cpu_inst_jnz = ground arith
opcode_cpu_to_string-SinDelimitadores OpcodeCpu.cpu_inst_mutex_create = ground arith
opcode_cpu_to_string-SinDelimitadores OpcodeCpu.cpu_inst_mutex_lock = ground arith
opcode_cpu_to_string-SinDelimitadores OpcodeCpu.cpu_inst_mutex_unlock = ground arith
opcode_cpu_to_string-SinDelimitadores OpcodeCpu.cpu_inst_sleep = ground arith
opcode_cpu_to_string-SinDelimitadores OpcodeCpu.cpu_inst_stdout = ground arith
opcode_cpu_to_string-SinDelimitadores OpcodeCpu.cpu_inst_stdin = ground arith
opcode_cpu_to_string-SinDelimitadores OpcodeCpu.cpu_inst_mem_alloc = ground arith
opcode_cpu_to_string-SinDelimitadores OpcodeCpu.cpu_inst_mem_free = ground arith
opcode_cpu_to_string-SinDelimitadores OpcodeCpu.cpu_inst_init_proc = ground arith
opcode_cpu_to_string-SinDelimitadores OpcodeCpu.cpu_inst_mov_in = ground arith
opcode_cpu_to_string-SinDelimitadores OpcodeCpu.cpu_inst_mov_out = ground arith
opcode_cpu_to_string-SinDelimitadores OpcodeCpu.cpu_inst_copy_mem = ground arith
opcode_cpu_to_string-SinDelimitadores OpcodeCpu.cpu_inst_exit = ground arith
opcode_cpu_to_string-SinDelimitadores OpcodeCpu.cpu_inst_unknown = ground arith

-- A text that shows an opcode by its name and at most three parameters of at most 63 characters,
-- with any delimiters before the opcode, at least one before each parameter and any at the end,
-- and that has at most 255 characters, is decoded to that opcode and those parameters.
pub decode_instruccion-escritos :
    (op : OpcodeCpu) (ps : List Parametro) (delante cola : Texto)
    → length ps ≤ cpu_max_parametros
    → All ParametroBien ps
    → Delimitadores delante
    → Delimitadores cola
    → length (delante ++ (opcode_cpu_to_string op ++ escritos ps cola)) ≤ 255
    → decode_instruccion (some (delante ++ (opcode_cpu_to_string op ++ escritos ps cola)))
      ≡ record { opcode = op; parametros = textos ps }
unfolding decode_instruccion
decode_instruccion-escritos op ps delante cola n h hd hc k =
    let (limpio, lleno) = opcode_cpu_to_string-SinDelimitadores op in
    rw
      (
        take-all 255 (delante ++ (opcode_cpu_to_string op ++ escritos ps cola)) k,
        strtok-palabra delante (opcode_cpu_to_string op) (escritos ps cola) hd limpio lleno
            (escritos-Separado ps cola h hc),
        decode_instruccion,
        obtener_opcode-opcode_cpu_to_string op,
        leer_parametros-escritos 3 ps cola n h hc,
      )
      refl
