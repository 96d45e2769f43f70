-- ===== src/Cpu/Execute/Inversa.antt =====
-- SUB takes back what SUM added: cpu/src/cpu_execute.c.
use ssoo.Common.{
  ℕ, ◌≡◌, ◌<◌, ◌%◌, ◌^◌, ◌+◌, ◌-◌, ap, ◌∙◌, some, [], ◌∷◌, Texto, codes, strcmp, subst, strcmp_sym,
  u32_mod, false, ◌⊎◌, inl, inr, arith,
}
use ssoo.Utils.Contexto.{RegistrosCpu, RegistrosEnRango}
use ssoo.Cpu.Registros.{leer_valor_registro_cpu, tamanio_registro_cpu}
use ssoo.Cpu.Decode.{OpcodeCpu}
use ssoo.Cpu.Execute.{cpu_exec_ok, ejecutar_instruccion}
use ssoo.Cpu.Execute.Semantica.{Asigna, tamanio-cases, ejecutar_instruccion-Escrito}

pub leer-cabe :
    (r : RegistrosCpu) (a : Texto) (x n : ℕ)
    → RegistrosEnRango r
    → leer_valor_registro_cpu r a ≡ some x
    → tamanio_registro_cpu a ≡ some n
    → x < 256 ^ n
unfolding leer_valor_registro_cpu tamanio_registro_cpu
leer-cabe r a x n h p q = ground arith

pub leer-cabe_32 :
    (r : RegistrosCpu) (a : Texto) (x : ℕ)
    → RegistrosEnRango r
    → leer_valor_registro_cpu r a ≡ some x
    → x < u32_mod
unfolding leer_valor_registro_cpu
leer-cabe_32 r a x h p = ground arith

resta-suma :
    (x y n : ℕ)
    → (n ≡ 1) ⊎ (n ≡ 4)
    → x < 256 ^ n
    → y < u32_mod
    → ((x + y) % (256 ^ n) + u32_mod - y) % (256 ^ n) ≡ x
resta-suma x y n (inl e) h k =
    rw e (let h' : x < 256 = subst (λ (m : ℕ). x < 256 ^ m) e h in omega arith)
resta-suma x y n (inr e) h k =
    rw e (let h' : x < u32_mod = subst (λ (m : ℕ). x < 256 ^ m) e h in omega arith)

-- For two different registers, neither of them the PC, SUM a b and then SUB a b both succeed and
-- give every register but the PC the value it had, also when the sum overflows the register.
pub ejecutar_sub-ejecutar_sum :
    (r : RegistrosCpu) (a b : Texto) (x y n : ℕ)
    → RegistrosEnRango r
    → leer_valor_registro_cpu r a ≡ some x
    → leer_valor_registro_cpu r b ≡ some y
    → tamanio_registro_cpu a ≡ some n
    → strcmp a b ≡ false
    → strcmp a (codes "PC") ≡ false
    → strcmp b (codes "PC") ≡ false
    → (r1 : RegistrosCpu) × (r2 : RegistrosCpu) × (ejecutar_instruccion
          (record { opcode = OpcodeCpu.cpu_inst_sum; parametros = a ∷ b ∷ [] })
          r
        ≡ (cpu_exec_ok, r1))
      × (ejecutar_instruccion
            (record { opcode = OpcodeCpu.cpu_inst_sub; parametros = a ∷ b ∷ [] })
            r1
          ≡ (cpu_exec_ok, r2))
      × (leer_valor_registro_cpu r2 a ≡ some x)
      × ((c : Texto)
          → strcmp a c ≡ false
          → strcmp (codes "PC") c ≡ false
          → leer_valor_registro_cpu r2 c ≡ leer_valor_registro_cpu r c)
ejecutar_sub-ejecutar_sum r a b x y n h p q t d da db =
    let (r1, e1, w1) =
      ejecutar_instruccion-Escrito
        (record { opcode = OpcodeCpu.cpu_inst_sum; parametros = a ∷ b ∷ [] }) r a n (x + y) h
        (Asigna.sum a b x y p q) t in
    let q1 : leer_valor_registro_cpu r1 b ≡ some y =
      w1.otros b d (strcmp_sym b (codes "PC") db) ∙ q in
    let (r2, e2, w2) =
      ejecutar_instruccion-Escrito
        (record { opcode = OpcodeCpu.cpu_inst_sub; parametros = a ∷ b ∷ [] }) r1 a n
        ((x + y) % (256 ^ n) + u32_mod - y) w1.caben
        (Asigna.sub a b ((x + y) % (256 ^ n)) y w1.destino q1) t in
    (
      r1,
      r2,
      e1,
      e2,
      w2.destino
          ∙ ap some (
              resta-suma x y n (tamanio-cases a n t) (leer-cabe r a x n h p t)
                (leer-cabe_32 r b y h q)),
      λ c z k. w2.otros c z k ∙ w1.otros c z k,
    )
