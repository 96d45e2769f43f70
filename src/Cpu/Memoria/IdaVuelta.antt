-- ===== src/Cpu/Memoria/IdaVuelta.antt =====
-- What MOV_OUT stores, MOV_IN brings back: cpu/src/cpu_memoria.c.
use ssoo.Common.{
  ℕ, ◌%◌, ◌^◌, ◌<◌, ◌≡◌, refl, sym, ap, subst, ◌∙◌, ◌⊎◌, inl, inr, some, List, [], ◌∷◌, take, slice,
  splice, slice-splice_same, Texto, codes, strcmp, u32_mod, false, arith,
}
use ssoo.Utils.Contexto.{RegistrosCpu, RegistrosEnRango, ContextoCpu}
use ssoo.Km.Sticks.{MemoryStick}
use ssoo.Km.Fisica.Plana.{plana, length-plana}
use ssoo.Cpu.Mmu.{TraduccionMmu}
use ssoo.Cpu.Registros.{leer_valor_registro_cpu, tamanio_registro_cpu}
use ssoo.Cpu.Decode.{OpcodeCpu}
use ssoo.Cpu.Execute.{avanzar_pc}
use ssoo.Cpu.Execute.Semantica.{tamanio-cases, avanzar_pc-otros}
use ssoo.Cpu.Execute.Inversa.{leer-cabe, leer-cabe_32}
use ssoo.Cpu.MemorySticks.Conexion.{Entorno}
use ssoo.Cpu.Memoria.{cpu_memoria_ok, valor_a_bytes, bytes_a_valor, traducida, traducir_o_fallar}
use ssoo.Cpu.Memoria.Instrucciones.{EstadoCpu, ejecutar_instruccion_memoria}
use ssoo.Cpu.Memoria.Permiso.{traducir_o_fallar-Permitido}
use ssoo.Cpu.Memoria.Semantica.{
  Sana, length-valor_a_bytes, bytes_a_valor-valor_a_bytes, tamanio_bounds, ejecutar_mov_out-Queda,
  ejecutar_mov_in-Carga,
}

resto-menor : (x n : ℕ) → (n ≡ 1) ⊎ (n ≡ 4) → x < 256 ^ n → x % (256 ^ n) ≡ x
resto-menor x n (inl e) h =
    rw e (let k : x < 256 = subst (λ (m : ℕ). x < 256 ^ m) e h in omega arith)
resto-menor x n (inr e) h =
    rw e (let k : x < u32_mod = subst (λ (m : ℕ). x < 256 ^ m) e h in omega arith)

avanzar_pc-si : (r : RegistrosCpu) → (avanzar_pc r).si ≡ r.si
unfolding avanzar_pc
avanzar_pc-si r = refl

-- When SI and DI hold one address at which the MMU grants the access, MOV_OUT of a register and
-- then MOV_IN of a register of the same size both succeed: the second register reads the value of
-- the first, every register but it and the PC keeps its value, and of the memory exactly the bytes
-- at the translated address have changed, to those of the value. The range may cross sticks. The
-- sticks work, the table of the CPU agrees with Kernel Memory's, and the segments of the process lie
-- in the memory.
pub ejecutar_mov_in-ejecutar_mov_out :
    (max : ℕ) (env : Entorno) (sticks : List MemoryStick) (fin : ℕ) (ctx : ContextoCpu)
    (e : EstadoCpu) (a b : Texto) (n x : ℕ) (t : TraduccionMmu)
    → Sana env sticks fin ctx e
    → RegistrosEnRango e.registros
    → tamanio_registro_cpu a ≡ some n
    → tamanio_registro_cpu b ≡ some n
    → leer_valor_registro_cpu e.registros a ≡ some x
    → e.registros.si ≡ e.registros.di
    → traducir_o_fallar max ctx e.registros.di n ≡ traducida t
    → (e1 : EstadoCpu) × (e2 : EstadoCpu) × (ejecutar_instruccion_memoria max env
          (record { opcode = OpcodeCpu.cpu_inst_mov_out; parametros = a ∷ [] })
          ctx
          e
        ≡ (cpu_memoria_ok, e1))
      × (ejecutar_instruccion_memoria max env
            (record { opcode = OpcodeCpu.cpu_inst_mov_in; parametros = b ∷ [] })
            ctx
            e1
          ≡ (cpu_memoria_ok, e2))
      × (leer_valor_registro_cpu e2.registros b ≡ some x)
      × ((c : Texto)
          → strcmp b c ≡ false
          → strcmp (codes "PC") c ≡ false
          → leer_valor_registro_cpu e2.registros c ≡ leer_valor_registro_cpu e.registros c)
      × (plana e2.red sticks
          ≡ splice t.direccion_fisica (take n (valor_a_bytes x n)) (plana e.red sticks))
ejecutar_mov_in-ejecutar_mov_out max env sticks fin ctx e a b n x t sana caben ha hb lx igual q =
    let casos = tamanio-cases a n ha in
    let cuatro = tamanio_bounds a n ha in
    let p =
      traducir_o_fallar-Permitido sticks fin max ctx e.registros.di n t sana.servidos caben.di_cabe
        (omega arith) cuatro.0 q in
    let xs = take n (valor_a_bytes x n) in
    let largo = length-valor_a_bytes x n casos in
    let g = ejecutar_mov_out-Queda max env sticks fin ctx e sana caben a n x t ha lx q in
    let e1 = g.final in
    let otros = avanzar_pc-otros e.registros caben in
    let caben1 : RegistrosEnRango e1.registros = subst RegistrosEnRango (sym g.registros) otros.0 in
    let si1 : e1.registros.si ≡ e.registros.di =
      ap (λ (r : RegistrosCpu). r.si) g.registros ∙ avanzar_pc-si e.registros ∙ igual in
    let q1 = ap (λ (d : ℕ). traducir_o_fallar max ctx d n) si1 ∙ q in
    let k = ejecutar_mov_in-Carga max env sticks fin ctx e1 g.sigue caben1 b n t hb q1 in
    let mem = sana.mundo.memoria in
    let lp = length-plana 0 e.red sticks fin mem.contiguos mem.cableado in
    let bytes : slice t.direccion_fisica n (plana e1.red sticks) ≡ xs =
      ap (slice t.direccion_fisica n) g.memoria
      ∙ ap
          (λ (m : ℕ).
            slice t.direccion_fisica m (splice t.direccion_fisica xs (plana e.red sticks)))
          (sym largo)
      ∙ slice-splice_same t.direccion_fisica xs (plana e.red sticks)
          (omega (arith, largo, lp, p.dentro)) in
    let v : bytes_a_valor (slice t.direccion_fisica n (plana e1.red sticks)) n ≡ x =
      ap (λ (l : List ℕ). bytes_a_valor l n) bytes
      ∙ bytes_a_valor-valor_a_bytes x n casos (leer-cabe e.registros a x n caben lx ha) in
    let x32 = leer-cabe_32 e.registros a x caben lx in
    let w = k.escrito (omega (arith, v, x32)) in
    (
      e1,
      k.final,
      g.resultado,
      k.resultado,
      w.destino
          ∙ ap (λ (m : ℕ). some (m % (256 ^ n))) v
          ∙ ap some (resto-menor x n casos (leer-cabe e.registros a x n caben lx ha)),
      λ c h h'.
          w.otros c h h'
          ∙ ap (λ (r : RegistrosCpu). leer_valor_registro_cpu r c) g.registros
          ∙ otros.1 c h',
      ap (λ r. plana r sticks) k.red_igual ∙ g.memoria,
    )
