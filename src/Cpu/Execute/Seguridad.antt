-- ===== src/Cpu/Execute/Seguridad.antt =====
-- Errors and ranges of every instruction, and SUB against SUM: cpu/src/cpu_execute.c.
use ssoo.Common.{
  ℕ, ◌≡◌, ◌<◌, ◌+◌, ◌-◌, refl, none, some, List, Texto, codes, strcmp, u32, u32_mod, Bool-cases,
  Option-cases, inl, inr, arith, ◌==◌,
}
use ssoo.Utils.Contexto.{RegistrosCpu, RegistrosEnRango}
use ssoo.Cpu.Registros.{leer_valor_registro_cpu, escribir_valor_registro_cpu}
use ssoo.Cpu.Registros.Acceso.{escribir_valor-leer_valor}
use ssoo.Cpu.Decode.{OpcodeCpu, InstruccionDecodificada}
use ssoo.Cpu.Execute.{
  ResultadoEjecucion, cpu_exec_ok, cpu_exec_error, strtoul, parsear_uint32,
  avanzar_pc_si_corresponde, dos_parametros, escribir_y_avanzar, ejecutar_noop, ejecutar_set,
  ejecutar_sum, ejecutar_sub, ejecutar_jnz, ejecutar_instruccion,
}
use ssoo.Cpu.Execute.Semantica.{u32-cabe, avanzar_pc-otros}

-- A result OK has every register in its C type; an error has left the registers as they were.
abbrev pub Segura : RegistrosCpu → ResultadoEjecucion × RegistrosCpu → Type 0
Segura r (cpu_exec_ok, r') = RegistrosEnRango r'
Segura r (cpu_exec_error, r') = r' ≡ r

escribir_y_avanzar-Segura :
    (r : RegistrosCpu) (a : Texto) (v : ℕ)
    → RegistrosEnRango r
    → v < u32_mod
    → Segura r (escribir_y_avanzar r a v)
unfolding escribir_y_avanzar avanzar_pc_si_corresponde
escribir_y_avanzar-Segura r a v h k = elim (Option-cases (escribir_valor_registro_cpu r a v)) [
  | inl e ↦ rw (e, escribir_y_avanzar) refl
  | inr (w, e) ↦
      let caben = (escribir_valor-leer_valor r a a v w h k e).0 in
      rw (e, escribir_y_avanzar)
        (elim (Bool-cases (strcmp a (codes "PC"))) [
          | inl q ↦ rw q caben
          | inr q ↦ rw q (avanzar_pc-otros w caben).0
        ])
]

ejecutar_set-Segura :
    (i : InstruccionDecodificada) (r : RegistrosCpu)
    → RegistrosEnRango r
    → Segura r (ejecutar_set i r)
unfolding ejecutar_set parsear_uint32
ejecutar_set-Segura i r h = elim (Option-cases (dos_parametros i.parametros)) [
  | inl e ↦ rw (e, ejecutar_set) refl
  | inr ((a, b), e) ↦
      rw (e, ejecutar_set)
        (escribir_y_avanzar-Segura r a (u32 (strtoul b)) h (u32-cabe (strtoul b)))
]

-- The shape that SUM and SUB share: two reads, then the write of a 32-bit result.
dos_lecturas : (ℕ → ℕ → ℕ) → RegistrosCpu → Texto → Texto → ResultadoEjecucion × RegistrosCpu
dos_lecturas f r a b = elim (leer_valor_registro_cpu r a) [
  | none ↦ (cpu_exec_error, r)
  | some destino ↦ elim (leer_valor_registro_cpu r b) [
    | none ↦ (cpu_exec_error, r)
    | some origen ↦ escribir_y_avanzar r a (u32 (f destino origen))
  ]
]

dos_lecturas-Segura :
    (f : ℕ → ℕ → ℕ) (r : RegistrosCpu) (a b : Texto)
    → RegistrosEnRango r
    → Segura r (dos_lecturas f r a b)
unfolding dos_lecturas
dos_lecturas-Segura f r a b h = elim (Option-cases (leer_valor_registro_cpu r a)) [
  | inl e ↦ rw (e, dos_lecturas) refl
  | inr (x, e) ↦ elim (Option-cases (leer_valor_registro_cpu r b)) [
    | inl d ↦ rw (e, dos_lecturas, d) refl
    | inr (y, d) ↦
        rw (e, dos_lecturas, d) (escribir_y_avanzar-Segura r a (u32 (f x y)) h (u32-cabe (f x y)))
  ]
]

ejecutar_sum-Segura :
    (i : InstruccionDecodificada) (r : RegistrosCpu)
    → RegistrosEnRango r
    → Segura r (ejecutar_sum i r)
unfolding ejecutar_sum dos_lecturas
ejecutar_sum-Segura i r h = elim (Option-cases (dos_parametros i.parametros)) [
  | inl e ↦ rw (e, ejecutar_sum) refl
  | inr ((a, b), e) ↦ rw (e, ejecutar_sum) (dos_lecturas-Segura (λ x y. x + y) r a b h)
]

ejecutar_sub-Segura :
    (i : InstruccionDecodificada) (r : RegistrosCpu)
    → RegistrosEnRango r
    → Segura r (ejecutar_sub i r)
unfolding ejecutar_sub dos_lecturas
ejecutar_sub-Segura i r h = elim (Option-cases (dos_parametros i.parametros)) [
  | inl e ↦ rw (e, ejecutar_sub) refl
  | inr ((a, b), e) ↦ rw (e, ejecutar_sub) (dos_lecturas-Segura (λ x y. x + u32_mod - y) r a b h)
]

salto-RegistrosEnRango :
    (r : RegistrosCpu) (v : ℕ)
    → v < u32_mod
    → RegistrosEnRango r
    → RegistrosEnRango (record r { pc = v })
salto-RegistrosEnRango r v k h = ground arith

ejecutar_jnz-Segura :
    (i : InstruccionDecodificada) (r : RegistrosCpu)
    → RegistrosEnRango r
    → Segura r (ejecutar_jnz i r)
unfolding ejecutar_jnz parsear_uint32
ejecutar_jnz-Segura i r h = elim (Option-cases (dos_parametros i.parametros)) [
  | inl e ↦ rw (e, ejecutar_jnz) refl
  | inr ((a, b), e) ↦ elim (Option-cases (leer_valor_registro_cpu r a)) [
    | inl d ↦ rw (e, ejecutar_jnz, d) refl
    | inr (x, d) ↦
        rw (e, ejecutar_jnz, d)
          (elim (Bool-cases (x == 0)) [
            | inl q ↦ rw q (avanzar_pc-otros r h).0
            | inr q ↦ rw q (salto-RegistrosEnRango r (parsear_uint32 b) (u32-cabe (strtoul b)) h)
          ])
  ]
]

por_opcode :
    (op : OpcodeCpu) (ps : List Texto) (r : RegistrosCpu)
    → RegistrosEnRango r
    → Segura r (ejecutar_instruccion (record { opcode = op; parametros = ps }) r)
unfolding ejecutar_instruccion ejecutar_noop parsear_uint32
por_opcode OpcodeCpu.cpu_inst_noop ps r h = (avanzar_pc-otros r h).0
por_opcode OpcodeCpu.cpu_inst_set ps r h =
    ejecutar_set-Segura (record { opcode = OpcodeCpu.cpu_inst_set; parametros = ps }) r h
por_opcode OpcodeCpu.cpu_inst_sum ps r h =
    ejecutar_sum-Segura (record { opcode = OpcodeCpu.cpu_inst_sum; parametros = ps }) r h
por_opcode OpcodeCpu.cpu_inst_sub ps r h =
    ejecutar_sub-Segura (record { opcode = OpcodeCpu.cpu_inst_sub; parametros = ps }) r h
por_opcode OpcodeCpu.cpu_inst_jnz ps r h =
    ejecutar_jnz-Segura (record { opcode = OpcodeCpu.cpu_inst_jnz; parametros = ps }) r h
por_opcode OpcodeCpu.cpu_inst_mutex_create ps r h = refl
por_opcode OpcodeCpu.cpu_inst_mutex_lock ps r h = refl
por_opcode OpcodeCpu.cpu_inst_mutex_unlock ps r h = refl
por_opcode OpcodeCpu.cpu_inst_sleep ps r h = refl
por_opcode OpcodeCpu.cpu_inst_stdout ps r h = refl
por_opcode OpcodeCpu.cpu_inst_stdin ps r h = refl
por_opcode OpcodeCpu.cpu_inst_mem_alloc ps r h = refl
por_opcode OpcodeCpu.cpu_inst_mem_free ps r h = refl
por_opcode OpcodeCpu.cpu_inst_init_proc ps r h = refl
por_opcode OpcodeCpu.cpu_inst_mov_in ps r h = refl
por_opcode OpcodeCpu.cpu_inst_mov_out ps r h = refl
por_opcode OpcodeCpu.cpu_inst_copy_mem ps r h = refl
por_opcode OpcodeCpu.cpu_inst_exit ps r h = refl
por_opcode OpcodeCpu.cpu_inst_unknown ps r h = refl

-- Whatever the instruction, an execution that starts with every register in its C type either
-- succeeds with every register in its C type, or fails and leaves the registers as they were.
pub ejecutar_instruccion-Segura :
    (i : InstruccionDecodificada) (r : RegistrosCpu)
    → RegistrosEnRango r
    → Segura r (ejecutar_instruccion i r)
ejecutar_instruccion-Segura i r h = por_opcode i.opcode i.parametros r h
