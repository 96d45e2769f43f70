-- ===== src/Cpu/Decode.antt =====
-- The decoding of an instruction: cpu/src/cpu_decode.h and cpu_decode.c.
pub mod Nombres
use ssoo.Common.{
  ℕ, zero, suc, ◌-◌, Option, none, some, List, [], ◌∷◌, Bool, true, false, ◌||◌, ◌==◌, Texto, codes,
  strcmp, take, if◌then◌else◌,
}

pub data OpcodeCpu : Type 0 where
  cpu_inst_noop cpu_inst_set cpu_inst_sum cpu_inst_sub cpu_inst_jnz : OpcodeCpu
  cpu_inst_mutex_create cpu_inst_mutex_lock cpu_inst_mutex_unlock : OpcodeCpu
  cpu_inst_sleep cpu_inst_stdout cpu_inst_stdin : OpcodeCpu
  cpu_inst_mem_alloc cpu_inst_mem_free cpu_inst_init_proc : OpcodeCpu
  cpu_inst_mov_in cpu_inst_mov_out cpu_inst_copy_mem cpu_inst_exit : OpcodeCpu
  cpu_inst_unknown : OpcodeCpu

-- `cantidad_parametros` is the length of the list.
pub record InstruccionDecodificada : Type 0 where
  pub opcode : OpcodeCpu
  pub parametros : List Texto

abbrev pub cpu_max_parametros : ℕ
cpu_max_parametros = 3

abbrev pub cpu_max_parametro_length : ℕ
cpu_max_parametro_length = 64

unfoldable pub obtener_opcode : Texto → OpcodeCpu
obtener_opcode nombre =
    if strcmp nombre (codes "NOOP")
    then cpu_inst_noop
    else if strcmp nombre (codes "SET")
    then cpu_inst_set
    else if strcmp nombre (codes "SUM")
    then cpu_inst_sum
    else if strcmp nombre (codes "SUB")
    then cpu_inst_sub
    else if strcmp nombre (codes "JNZ")
    then cpu_inst_jnz
    else if strcmp nombre (codes "MUTEX_CREATE")
    then cpu_inst_mutex_create
    else if strcmp nombre (codes "MUTEX_LOCK")
    then cpu_inst_mutex_lock
    else if strcmp nombre (codes "MUTEX_UNLOCK")
    then cpu_inst_mutex_unlock
    else if strcmp nombre (codes "SLEEP")
    then cpu_inst_sleep
    else if strcmp nombre (codes "STDOUT")
    then cpu_inst_stdout
    else if strcmp nombre (codes "STDIN")
    then cpu_inst_stdin
    else if strcmp nombre (codes "INIT_PROC")
    then cpu_inst_init_proc
    else if strcmp nombre (codes "MOV_IN")
    then cpu_inst_mov_in
    else if strcmp nombre (codes "COPY_MEM")
    then cpu_inst_copy_mem
    else if strcmp nombre (codes "EXIT")
    then cpu_inst_exit
    else if strcmp nombre (codes "MOV_OUT")
    then cpu_inst_mov_out
    else if strcmp nombre (codes "MEM_ALLOC")
    then cpu_inst_mem_alloc
    else if strcmp nombre (codes "MEM_FREE")
    then cpu_inst_mem_free
    else cpu_inst_unknown

-- `none` is the state of strtok after it has returned NULL.
-- A delimiter of strtok(…, " \t\r\n").
abbrev pub es_delimitador : ℕ → Bool
es_delimitador c = c == 32 || (c == 9 || (c == 13 || c == 10))

-- strtok skips the delimiters before a token.
pub saltar : Texto → Texto
saltar [] = []
saltar (c ∷ s) = if es_delimitador c then saltar s else c ∷ s

-- The token at the front of a text, and the text after the delimiter that ends it.
pub cortar : Texto → Texto × Texto
cortar [] = ([], [])
cortar (c ∷ s) =
    let (token, resto) = cortar s in if es_delimitador c then ([], s) else (c ∷ token, resto)

unfoldable pub strtok : Texto → Option (Texto × Texto)
strtok s = elim (saltar s) [ [] ↦ none | c ∷ t ↦ some (cortar (c ∷ t)) ]

-- The loop over the parameters; the count is that of the places left.
pub leer_parametros : ℕ → Texto → List Texto
leer_parametros zero s = []
leer_parametros (suc libres) s = elim (strtok s) [
  | none ↦ []
  | some (token, resto) ↦ take (cpu_max_parametro_length - 1) token ∷ leer_parametros libres resto
]

unfoldable pub decode_instruccion : Option Texto → InstruccionDecodificada
decode_instruccion none = record { opcode = cpu_inst_unknown; parametros = [] }
decode_instruccion (some instruccion) = elim (strtok (take 255 instruccion)) [
  | none ↦ record { opcode = cpu_inst_unknown; parametros = [] }
  | some (token, resto) ↦ record {
    opcode = obtener_opcode token;
    parametros = leer_parametros cpu_max_parametros resto;
  }
]

unfoldable pub opcode_cpu_to_string : OpcodeCpu → Texto
opcode_cpu_to_string cpu_inst_noop = codes "NOOP"
opcode_cpu_to_string cpu_inst_set = codes "SET"
opcode_cpu_to_string cpu_inst_sum = codes "SUM"
opcode_cpu_to_string cpu_inst_sub = codes "SUB"
opcode_cpu_to_string cpu_inst_jnz = codes "JNZ"
opcode_cpu_to_string cpu_inst_mutex_create = codes "MUTEX_CREATE"
opcode_cpu_to_string cpu_inst_mutex_lock = codes "MUTEX_LOCK"
opcode_cpu_to_string cpu_inst_mutex_unlock = codes "MUTEX_UNLOCK"
opcode_cpu_to_string cpu_inst_sleep = codes "SLEEP"
opcode_cpu_to_string cpu_inst_stdout = codes "STDOUT"
opcode_cpu_to_string cpu_inst_stdin = codes "STDIN"
opcode_cpu_to_string cpu_inst_mem_alloc = codes "MEM_ALLOC"
opcode_cpu_to_string cpu_inst_mem_free = codes "MEM_FREE"
opcode_cpu_to_string cpu_inst_init_proc = codes "INIT_PROC"
opcode_cpu_to_string cpu_inst_mov_in = codes "MOV_IN"
opcode_cpu_to_string cpu_inst_mov_out = codes "MOV_OUT"
opcode_cpu_to_string cpu_inst_copy_mem = codes "COPY_MEM"
opcode_cpu_to_string cpu_inst_exit = codes "EXIT"
opcode_cpu_to_string cpu_inst_unknown = codes "UNKNOWN"
