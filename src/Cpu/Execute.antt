-- ===== src/Cpu/Execute.antt =====
-- The instructions that only use registers: cpu/src/cpu_execute.h and cpu_execute.c.
-- Every handler returns its result and the registers as they are when it returns.
pub mod Seguridad
pub mod Inversa
pub mod Semantica
use ssoo.Common.{
  ℕ, zero, suc, ◌+◌, ◌*◌, ◌-◌, Option, none, some, List, [], ◌∷◌, Bool, true, false, ◌||◌, ◌&&◌,
  ◌==◌, leb, ltb, Texto, codes, strcmp, u32, u32_mod, if◌then◌else◌,
}
use ssoo.Utils.Contexto.{RegistrosCpu}
use ssoo.Cpu.Registros.{leer_valor_registro_cpu, escribir_valor_registro_cpu}
use ssoo.Cpu.Decode.{
  OpcodeCpu, cpu_inst_noop, cpu_inst_set, cpu_inst_sum, cpu_inst_sub, cpu_inst_jnz,
  InstruccionDecodificada,
}

pub data ResultadoEjecucion : Type 0 where
  cpu_exec_ok cpu_exec_error : ResultadoEjecucion

-- ULONG_MAX, where unsigned long has 64 bits.
abbrev pub ulong_max : ℕ
ulong_max = 18446744073709551615

-- The white space that strtoul skips.
pub saltar_espacios : Texto → Texto
saltar_espacios [] = []
saltar_espacios (c ∷ s) = if c == 32 || (leb 9 c && leb c 13) then saltar_espacios s else c ∷ s

-- The decimal digits at the front of a text, read after the value so far.
pub digitos : Texto → ℕ → ℕ
digitos [] n = n
digitos (c ∷ s) n =
    let resto = digitos s (n * 10 + (c - 48)) in if leb 48 c && leb c 57 then resto else n

-- The value of strtoul for a magnitude with the sign `-`: a magnitude that does not fit gives
-- ULONG_MAX, any other is negated modulo 2 ^ 64.
unfoldable pub sin_signo : ℕ → ℕ
sin_signo n = if ltb ulong_max n then ulong_max else n

unfoldable pub con_menos : ℕ → ℕ
con_menos n = if ltb ulong_max n then ulong_max else if n == 0 then 0 else ulong_max + 1 - n

pub con_signo : Texto → ℕ
unfolding sin_signo con_menos
con_signo [] = 0
con_signo (c ∷ s) =
    if c == 45
    then con_menos (digitos s 0)
    else if c == 43
    then sin_signo (digitos s 0)
    else sin_signo (digitos (c ∷ s) 0)

-- strtoul(valor, NULL, 10)
unfoldable pub strtoul : Texto → ℕ
unfolding con_signo
strtoul s = con_signo (saltar_espacios s)

unfoldable pub parsear_uint32 : Texto → ℕ
parsear_uint32 valor = u32 (strtoul valor)

unfoldable pub avanzar_pc : RegistrosCpu → RegistrosCpu
avanzar_pc r = record r { pc = u32 (r.pc + 1) }

unfoldable pub avanzar_pc_si_corresponde : RegistrosCpu → Texto → RegistrosCpu
avanzar_pc_si_corresponde r registro_destino =
    if strcmp registro_destino (codes "PC") then r else avanzar_pc r

unfoldable pub ejecutar_noop : RegistrosCpu → ResultadoEjecucion × RegistrosCpu
ejecutar_noop r = (cpu_exec_ok, avanzar_pc r)

-- The end that SET, SUM and SUB share: the write to the destination and the step of the PC.
unfoldable pub escribir_y_avanzar : RegistrosCpu → Texto → ℕ → ResultadoEjecucion × RegistrosCpu
escribir_y_avanzar r destino valor = elim (escribir_valor_registro_cpu r destino valor) [
  | none ↦ (cpu_exec_error, r)
  | some escritos ↦ (cpu_exec_ok, avanzar_pc_si_corresponde escritos destino)
]

-- The two parameters of an instruction that takes exactly two.
unfoldable pub dos_parametros : List Texto → Option (Texto × Texto)
dos_parametros [] = none
dos_parametros (a ∷ []) = none
dos_parametros (a ∷ b ∷ []) = some (a, b)
dos_parametros (a ∷ b ∷ c ∷ ps) = none

unfoldable pub ejecutar_set :
    InstruccionDecodificada → RegistrosCpu → ResultadoEjecucion × RegistrosCpu
unfolding dos_parametros
ejecutar_set i r = elim (dos_parametros i.parametros) [
  | none ↦ (cpu_exec_error, r)
  | some (a, b) ↦ escribir_y_avanzar r a (parsear_uint32 b)
]

unfoldable pub ejecutar_sum :
    InstruccionDecodificada → RegistrosCpu → ResultadoEjecucion × RegistrosCpu
unfolding dos_parametros
ejecutar_sum i r = elim (dos_parametros i.parametros) [
  | none ↦ (cpu_exec_error, r)
  | some (a, b) ↦ elim (leer_valor_registro_cpu r a) [
    | none ↦ (cpu_exec_error, r)
    | some destino ↦ elim (leer_valor_registro_cpu r b) [
      | none ↦ (cpu_exec_error, r)
      | some origen ↦ escribir_y_avanzar r a (u32 (destino + origen))
    ]
  ]
]

unfoldable pub ejecutar_sub :
    InstruccionDecodificada → RegistrosCpu → ResultadoEjecucion × RegistrosCpu
unfolding dos_parametros
ejecutar_sub i r = elim (dos_parametros i.parametros) [
  | none ↦ (cpu_exec_error, r)
  | some (a, b) ↦ elim (leer_valor_registro_cpu r a) [
    | none ↦ (cpu_exec_error, r)
    | some destino ↦ elim (leer_valor_registro_cpu r b) [
      | none ↦ (cpu_exec_error, r)
      | some origen ↦ escribir_y_avanzar r a (u32 (destino + u32_mod - origen))
    ]
  ]
]

unfoldable pub ejecutar_jnz :
    InstruccionDecodificada → RegistrosCpu → ResultadoEjecucion × RegistrosCpu
unfolding dos_parametros
ejecutar_jnz i r = elim (dos_parametros i.parametros) [
  | none ↦ (cpu_exec_error, r)
  | some (a, b) ↦ elim (leer_valor_registro_cpu r a) [
    | none ↦ (cpu_exec_error, r)
    | some valor ↦
        (cpu_exec_ok, if valor == 0 then avanzar_pc r else record r { pc = parsear_uint32 b })
  ]
]

unfoldable pub ejecutar_instruccion :
    InstruccionDecodificada → RegistrosCpu → ResultadoEjecucion × RegistrosCpu
ejecutar_instruccion i r = elim i.opcode [
  | cpu_inst_noop ↦ ejecutar_noop r
  | cpu_inst_set ↦ ejecutar_set i r
  | cpu_inst_sum ↦ ejecutar_sum i r
  | cpu_inst_sub ↦ ejecutar_sub i r
  | cpu_inst_jnz ↦ ejecutar_jnz i r
  | _ ↦ (cpu_exec_error, r)
]
