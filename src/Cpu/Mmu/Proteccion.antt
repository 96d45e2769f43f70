-- ===== src/Cpu/Mmu/Proteccion.antt =====
-- What the MMU grants, and that it agrees with the translation of Kernel Memory.
use ssoo.Common.{
  ℕ, ◌+◌, ◌/◌, ◌%◌, ◌≤◌, ◌<◌, ◌≡◌, refl, sym, ◌∙◌, inl, inr, Option, none, some, List, [], ◌∷◌, All,
  ◌==◌, Bool-cases, u32_mod, uint32_max, pos, arith,
}
use ssoo.Utils.Contexto.{ContextoCpu, EntradaSegmento, SegmentoEnRango}
use ssoo.Km.Huecos.Cobertura.{cubre}
use ssoo.Km.Segmentos.{buscar_segmento, traducir_direccion, dentro_de_segmento}
use ssoo.Cpu.Mmu.{
  TraduccionMmu, ResultadoMmu, mmu_ok, segmento_no_encontrado, segmentation_fault, mmu_error,
  buscar_en, con_segmento, traducir_direccion_logica,
}

-- Both programs search the table alike.
buscar_en-buscar_segmento :
    (ss : List EntradaSegmento) (id : ℕ) → buscar_en ss id ≡ buscar_segmento id ss
unfolding buscar_en buscar_segmento
buscar_en-buscar_segmento [] id = refl
buscar_en-buscar_segmento (s ∷ ss) id = ground (arith, buscar_en-buscar_segmento ss id)

buscar_en-All :
    (id : ℕ) (ss : List EntradaSegmento) (s : EntradaSegmento)
    → buscar_en ss id ≡ some s
    → All SegmentoEnRango ss
    → SegmentoEnRango s
unfolding buscar_en
buscar_en-All id [] s e a = absurd (cc)
buscar_en-All id (t ∷ ss) s e (ht, a) = ground (arith, buscar_en-All id ss s)

-- The physical address of a result, UINT32_MAX if there is none.
abbrev pub fisica_o_maximo : ResultadoMmu → ℕ
fisica_o_maximo (mmu_ok t) = t.direccion_fisica
fisica_o_maximo segmento_no_encontrado = uint32_max
fisica_o_maximo segmentation_fault = uint32_max
fisica_o_maximo mmu_error = uint32_max

con_segmento-dentro :
    (id d tamanio : ℕ) (o : Option EntradaSegmento)
    → ((s : EntradaSegmento) → o ≡ some s → SegmentoEnRango s)
    → tamanio < u32_mod
    → d < u32_mod
    → dentro_de_segmento d tamanio o ≡ fisica_o_maximo (con_segmento id d tamanio o)
con_segmento-dentro id d tamanio none r t h = refl
con_segmento-dentro id d tamanio (some s) r t h = ground (arith, r s refl)

-- Kernel Memory, for the data of STDIN and STDOUT, and the CPU, for MOV_IN, MOV_OUT and COPY_MEM,
-- translate every logical address alike, UINT32_MAX standing in Kernel Memory for all refusals,
-- although they write the bounds test in two ways. The table, the size and the address fit 32 bits.
pub traducir_direccion-logica :
    (seg_max : ℕ) (ctx : ContextoCpu) (dir tamanio : ℕ)
    → All SegmentoEnRango ctx.segmentos
    → dir < u32_mod
    → tamanio < u32_mod
    → traducir_direccion (pos seg_max) ctx dir tamanio
      ≡ fisica_o_maximo (traducir_direccion_logica seg_max (some ctx) dir tamanio)
unfolding traducir_direccion traducir_direccion_logica
traducir_direccion-logica seg_max ctx dir tamanio a h t =
    let id = dir / seg_max in
    let igual =
      con_segmento-dentro id (dir % seg_max) tamanio (buscar_segmento id ctx.segmentos)
        (λ s e. buscar_en-All id ctx.segmentos s (buscar_en-buscar_segmento ctx.segmentos id ∙ e) a)
        t (resto h) in
    rw (buscar_en-buscar_segmento ctx.segmentos id) (elim (Bool-cases (seg_max == 0)) [
      | inl z ↦ elim (Bool-cases (tamanio == 0)) [ inl w ↦ rw (z, w) | inr w ↦ rw (z, w) ]
      | inr z ↦ elim (Bool-cases (tamanio == 0)) [ inl w ↦ rw (z, w) | inr w ↦ rw (z, w) igual ]
    ])
  where
    resto : dir < u32_mod → dir % seg_max < u32_mod
    resto k = grind (arith, k)

con_segmento-Protege :
    (id d tamanio : ℕ) (o : Option EntradaSegmento) (t : TraduccionMmu)
    → con_segmento id d tamanio o ≡ mmu_ok t
    → tamanio < u32_mod
    → d < u32_mod
    → (s : EntradaSegmento) × (o ≡ some s)
      × (t.direccion_fisica ≡ s.base + d)
      × (t.id_memory_stick ≡ s.id_memory_stick)
      × ((x : ℕ)
          → t.direccion_fisica ≤ x
          → x < t.direccion_fisica + tamanio
          → cubre x s.base s.limite ≡ 1)
unfolding cubre
con_segmento-Protege id d tamanio none t e k h = absurd (cc)
con_segmento-Protege id d tamanio (some s) t e k h =
    (s, refl, fisica, ground (arith, e), λ x l m. ground (arith, e, fisica, l, m))
  where
    fisica : t.direccion_fisica ≡ s.base + d
    fisica = ground (arith, e)

-- An access that the MMU grants lies, every byte of it, inside the segment of the context's table
-- whose id is the address divided by the maximum size, from the remainder's place in it on, and the
-- stick that is named is the segment's. The address and the size fit 32 bits.
pub traducir_direccion_logica-Protege :
    (seg_max : ℕ) (ctx : ContextoCpu) (dir tamanio : ℕ) (t : TraduccionMmu)
    → dir < u32_mod
    → tamanio < u32_mod
    → traducir_direccion_logica seg_max (some ctx) dir tamanio ≡ mmu_ok t
    → (s : EntradaSegmento) × (buscar_segmento (dir / seg_max) ctx.segmentos ≡ some s)
      × (t.direccion_fisica ≡ s.base + dir % seg_max)
      × (t.id_memory_stick ≡ s.id_memory_stick)
      × ((x : ℕ)
          → t.direccion_fisica ≤ x
          → x < t.direccion_fisica + tamanio
          → cubre x s.base s.limite ≡ 1)
unfolding traducir_direccion_logica
traducir_direccion_logica-Protege seg_max ctx dir tamanio t h k e =
    let id = dir / seg_max in
    let (s, f, g, m, c) =
      con_segmento-Protege id (dir % seg_max) tamanio (buscar_en ctx.segmentos id) t
        (ground (arith, e)) k (grind (arith, h)) in
    (s, sym (buscar_en-buscar_segmento ctx.segmentos id) ∙ f, g, m, c)
