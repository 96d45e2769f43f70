-- ===== src/Cpu/Memoria/Aislamiento.antt =====
-- A process reaches no memory but its segments: the instructions of cpu/src/cpu_memoria.c.
use ssoo.Common.{
  ℕ, ◌+◌, ◌≤◌, ◌<◌, ◌≡◌, refl, sym, ap, subst, ◌∙◌, ◌⊎◌, inl, inr, some, List, [], ◌∷◌, All, length,
  length-take, length-drop, take, drop, slice, splice, slice-splice_before, slice-splice_after,
  ◌==◌, Bool-cases, Option-cases, Texto, false, arith,
}
use ssoo.Utils.Contexto.{RegistrosCpu, RegistrosEnRango, ContextoCpu, EntradaSegmento}
use ssoo.Km.Sticks.{MemoryStick}
use ssoo.Km.Fisica.Plana.{plana, length-plana}
use ssoo.Cpu.Mmu.{TraduccionMmu}
use ssoo.Cpu.Registros.{leer_valor_registro_cpu, tamanio_registro_cpu}
use ssoo.Cpu.Decode.{OpcodeCpu, InstruccionDecodificada}
use ssoo.Cpu.Execute.{avanzar_pc}
use ssoo.Cpu.Execute.Semantica.{tamanio-cases}
use ssoo.Cpu.Execute.Inversa.{leer-cabe_32}
use ssoo.Cpu.MemorySticks.Conexion.{Entorno}
use ssoo.Cpu.Memoria.{
  ResultadoMemoriaCpu, cpu_memoria_ok, cpu_memoria_error, cpu_memoria_seg_fault, valor_a_bytes,
  Traducida, traducida, rechazada, traducir_o_fallar,
}
use ssoo.Cpu.Memoria.Instrucciones.{
  EstadoCpu, Salida, un_parametro, ejecutar_mov_in, ejecutar_mov_out, ejecutar_copy_mem,
  ejecutar_instruccion_memoria,
}
use ssoo.Cpu.Memoria.Permiso.{Permitido, buscar_segmento-All, traducir_o_fallar-Permitido}
use ssoo.Cpu.Memoria.Semantica.{
  Sana, Queda, length-valor_a_bytes, tamanio_bounds, ejecutar_mov_out-Queda, ejecutar_mov_in-Carga,
  ejecutar_copy_mem-Queda,
}

-- The `k` bytes from `c` on and the segment do not meet.
abbrev pub Ajeno : ℕ → ℕ → EntradaSegmento → Type 0
Ajeno c k s = (c + k ≤ s.base) ⊎ (s.base + s.limite ≤ c)

module _ (env : Entorno) (sticks : List MemoryStick) (fin : ℕ) (ctx : ContextoCpu) where
  -- A result OK has left the bytes outside of the process's segments as they were, and all in
  -- order; any other has changed nothing.
  abbrev pub Aislada : EstadoCpu → Salida → Type 0
  Aislada e (cpu_memoria_ok, e') =
      Sana env sticks fin ctx e'
      × ((c k : ℕ)
          → All (Ajeno c k) ctx.segmentos
          → slice c k (plana e'.red sticks) ≡ slice c k (plana e.red sticks))
  Aislada e (cpu_memoria_error, e') = e' ≡ e
  Aislada e (cpu_memoria_seg_fault, e') = e' ≡ e

  -- A write into a segment.
  splice-Ajeno :
      (t : TraduccionMmu) (n c k : ℕ) (xs l : List ℕ)
      → Permitido sticks fin ctx t n
      → length xs ≡ n
      → length l ≡ fin
      → All (Ajeno c k) ctx.segmentos
      → slice c k (splice t.direccion_fisica xs l) ≡ slice c k l
  splice-Ajeno t n c k xs l p h m a =
      por_casos (buscar_segmento-All (Ajeno c k) p.id ctx.segmentos p.segmento p.entrada a)
    where
      por_casos :
          (c + k ≤ p.segmento.base) ⊎ (p.segmento.base + p.segmento.limite ≤ c)
          → slice c k (splice t.direccion_fisica xs l) ≡ slice c k l
      por_casos (inl u) =
          slice-splice_before c k t.direccion_fisica xs l (omega (arith, u, p.desde))
            (omega (arith, m, p.dentro))
      por_casos (inr u) =
          slice-splice_after c k t.direccion_fisica xs l (omega (arith, u, p.hasta, h))
            (omega (arith, m, p.dentro))

  rechazada-Aislada :
      (e : EstadoCpu) (m : ResultadoMemoriaCpu)
      → (m ≡ cpu_memoria_error) ⊎ (m ≡ cpu_memoria_seg_fault)
      → Aislada e (m, e)
  rechazada-Aislada e cpu_memoria_ok (inl h) = absurd (cc)
  rechazada-Aislada e cpu_memoria_ok (inr h) = absurd (cc)
  rechazada-Aislada e cpu_memoria_error h = refl
  rechazada-Aislada e cpu_memoria_seg_fault h = refl

-- A translation grants the access, or is an error that is not OK.
traducir-cases :
    (max : ℕ) (ctx : ContextoCpu) (dir n : ℕ)
    → ((t : TraduccionMmu) × (traducir_o_fallar max ctx dir n ≡ traducida t))
      ⊎ ((m : ResultadoMemoriaCpu) × (traducir_o_fallar max ctx dir n ≡ rechazada m)
          × ((m ≡ cpu_memoria_error) ⊎ (m ≡ cpu_memoria_seg_fault)))
unfolding traducir_o_fallar
traducir-cases max ctx dir n = de (traducir_o_fallar max ctx dir n) refl
  where
    de :
        (x : Traducida)
        → traducir_o_fallar max ctx dir n ≡ x
        → ((t : TraduccionMmu) × (traducir_o_fallar max ctx dir n ≡ traducida t))
          ⊎ ((m : ResultadoMemoriaCpu) × (traducir_o_fallar max ctx dir n ≡ rechazada m)
              × ((m ≡ cpu_memoria_error) ⊎ (m ≡ cpu_memoria_seg_fault)))
    de (traducida t) h = inl (t, h)
    de (rechazada cpu_memoria_ok) h = absurd (ground arith)
    de (rechazada cpu_memoria_error) h = inr (cpu_memoria_error, h, inl refl)
    de (rechazada cpu_memoria_seg_fault) h = inr (cpu_memoria_seg_fault, h, inr refl)

module _ (max : ℕ) (env : Entorno) (sticks : List MemoryStick) (fin : ℕ) (ctx : ContextoCpu)
    (e : EstadoCpu) (sana : Sana env sticks fin ctx e) (caben : RegistrosEnRango e.registros) where
  length-memoria : length (plana e.red sticks) ≡ fin
  length-memoria =
      let mem = sana.mundo.memoria in
      omega (arith, length-plana 0 e.red sticks fin mem.contiguos mem.cableado)

  Queda-Aislada :
      (r : RegistrosCpu) (t : TraduccionMmu) (n : ℕ) (xs : List ℕ) (s : Salida)
      → Permitido sticks fin ctx t n
      → length xs ≡ n
      → Queda max env sticks fin ctx e sana caben r
          (splice t.direccion_fisica xs (plana e.red sticks))
          s
      → Aislada env sticks fin ctx e s
  Queda-Aislada r t n xs s p h q = subst (Aislada env sticks fin ctx e) (sym q.resultado) (
    q.sigue,
    λ c k a.
        ap (slice c k) q.memoria
        ∙ splice-Ajeno env sticks fin ctx t n c k xs (plana e.red sticks) p h length-memoria a,
  )

  mov_out-Aislada :
      (a : Texto) (n x : ℕ)
      → tamanio_registro_cpu a ≡ some n
      → leer_valor_registro_cpu e.registros a ≡ some x
      → Aislada env sticks fin ctx e (
          ejecutar_instruccion_memoria max env
            (record { opcode = OpcodeCpu.cpu_inst_mov_out; parametros = a ∷ [] })
            ctx
            e)
  unfolding ejecutar_instruccion_memoria ejecutar_mov_out un_parametro
  mov_out-Aislada a n x h l =
      let cuatro = tamanio_bounds a n h in
      elim (traducir-cases max ctx e.registros.di n) [
        | inl (t, q) ↦
            Queda-Aislada (avanzar_pc e.registros) t n (take n (valor_a_bytes x n)) _
              (traducir_o_fallar-Permitido sticks fin max ctx e.registros.di n t sana.servidos
                caben.di_cabe (omega (arith, cuatro)) cuatro.0 q)
              (length-valor_a_bytes x n (tamanio-cases a n h))
              (ejecutar_mov_out-Queda max env sticks fin ctx e sana caben a n x t h l q)
        | inr (m, q, o) ↦ rw (h, l, q) (rechazada-Aislada env sticks fin ctx e m o)
      ]

  mov_in-Aislada :
      (b : Texto) (n : ℕ)
      → tamanio_registro_cpu b ≡ some n
      → Aislada env sticks fin ctx e (
          ejecutar_instruccion_memoria max env
            (record { opcode = OpcodeCpu.cpu_inst_mov_in; parametros = b ∷ [] })
            ctx
            e)
  unfolding ejecutar_instruccion_memoria ejecutar_mov_in un_parametro
  mov_in-Aislada b n h = elim (traducir-cases max ctx e.registros.si n) [
    | inl (t, q) ↦
        let k = ejecutar_mov_in-Carga max env sticks fin ctx e sana caben b n t h q in
        subst (Aislada env sticks fin ctx e) (sym k.resultado)
          (k.sigue_sana, λ c j a. ap (λ r. slice c j (plana r sticks)) k.red_igual)
    | inr (m, q, o) ↦ rw (h, q) (rechazada-Aislada env sticks fin ctx e m o)
  ]

  copy_mem-Aislada :
      (a : Texto) (n : ℕ)
      → leer_valor_registro_cpu e.registros a ≡ some n
      → 0 < n
      → Aislada env sticks fin ctx e (
          ejecutar_instruccion_memoria max env
            (record { opcode = OpcodeCpu.cpu_inst_copy_mem; parametros = a ∷ [] })
            ctx
            e)
  unfolding ejecutar_instruccion_memoria ejecutar_copy_mem un_parametro
  copy_mem-Aislada a n h p =
      let c = leer-cabe_32 e.registros a n caben h in
      let cero : (n == 0) ≡ false = ground (arith, p) in
      elim (traducir-cases max ctx e.registros.si n) [
        | inl (o, q) ↦ elim (traducir-cases max ctx e.registros.di n) [
          | inl (d, q') ↦
              let po =
                traducir_o_fallar-Permitido sticks fin max ctx e.registros.si n o sana.servidos
                  caben.si_cabe c p q in
              let pd =
                traducir_o_fallar-Permitido sticks fin max ctx e.registros.di n d sana.servidos
                  caben.di_cabe c p q' in
              let l : length (slice o.direccion_fisica n (plana e.red sticks)) ≡ n = omega (
                arith,
                length-take n (drop o.direccion_fisica (plana e.red sticks)),
                length-drop o.direccion_fisica (plana e.red sticks),
                length-memoria,
                po.dentro,
              ) in
              Queda-Aislada (avanzar_pc e.registros) d n
                (slice o.direccion_fisica n (plana e.red sticks)) _ pd l
                (ejecutar_copy_mem-Queda max env sticks fin ctx e sana caben a n o d h p c q q')
          | inr (m, q', w) ↦ rw (h, cero, q, q') (rechazada-Aislada env sticks fin ctx e m w)
        ]
        | inr (m, q, w) ↦ rw (h, cero, q) (rechazada-Aislada env sticks fin ctx e m w)
      ]

  -- The parameters of each instruction, in all their cases.
  por_parametros :
      (o : OpcodeCpu) (ps : List Texto)
      → Aislada env sticks fin ctx e
          (ejecutar_instruccion_memoria max env (record { opcode = o; parametros = ps }) ctx e)
  unfolding ejecutar_instruccion_memoria ejecutar_mov_in ejecutar_mov_out ejecutar_copy_mem
      un_parametro
  por_parametros OpcodeCpu.cpu_inst_mov_in [] = refl
  por_parametros OpcodeCpu.cpu_inst_mov_in (a ∷ b ∷ ps) = refl
  por_parametros OpcodeCpu.cpu_inst_mov_in (a ∷ []) = elim (Option-cases (tamanio_registro_cpu a)) [
    | inl h ↦ rw h refl
    | inr (n, h) ↦ mov_in-Aislada a n h
  ]
  por_parametros OpcodeCpu.cpu_inst_mov_out [] = refl
  por_parametros OpcodeCpu.cpu_inst_mov_out (a ∷ b ∷ ps) = refl
  por_parametros OpcodeCpu.cpu_inst_mov_out (a ∷ []) =
      elim (Option-cases (tamanio_registro_cpu a)) [
        | inl h ↦ rw h refl
        | inr (n, h) ↦ elim (Option-cases (leer_valor_registro_cpu e.registros a)) [
          | inl l ↦ rw (h, l) refl
          | inr (x, l) ↦ mov_out-Aislada a n x h l
        ]
      ]
  por_parametros OpcodeCpu.cpu_inst_copy_mem [] = refl
  por_parametros OpcodeCpu.cpu_inst_copy_mem (a ∷ b ∷ ps) = refl
  por_parametros OpcodeCpu.cpu_inst_copy_mem (a ∷ []) =
      elim (Option-cases (leer_valor_registro_cpu e.registros a)) [
        | inl l ↦ rw l refl
        | inr (n, l) ↦ elim (Bool-cases (n == 0)) [
          | inl z ↦ rw (l, z) refl
          | inr z ↦ copy_mem-Aislada a n l (ground (arith, z))
        ]
      ]
  por_parametros _ ps = refl

-- Whatever instruction a process runs through the memory instructions of the CPU: when the result is
-- OK, every range of bytes that meets none of its segments is as it was, and the sticks and the table
-- of the CPU are still in order; when it is an error or a segmentation fault, neither the registers,
-- nor the memory, nor the table have changed. The sticks work, the table of the CPU agrees with
-- Kernel Memory's, and the segments of the process lie in the memory.
pub ejecutar_instruccion_memoria-Aislada :
    (max : ℕ) (env : Entorno) (sticks : List MemoryStick) (fin : ℕ) (ctx : ContextoCpu)
    (e : EstadoCpu) (i : InstruccionDecodificada)
    → Sana env sticks fin ctx e
    → RegistrosEnRango e.registros
    → Aislada env sticks fin ctx e (ejecutar_instruccion_memoria max env i ctx e)
ejecutar_instruccion_memoria-Aislada max env sticks fin ctx e i sana caben =
    por_parametros max env sticks fin ctx e sana caben i.opcode i.parametros
