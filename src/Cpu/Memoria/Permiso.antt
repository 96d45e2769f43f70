-- ===== src/Cpu/Memoria/Permiso.antt =====
-- What an access that the MMU grants may reach.
use ssoo.Common.{
  ℕ, ◌+◌, ◌-◌, ◌/◌, ◌≤◌, ◌<◌, ◌≡◌, ap, ◌∙◌, some, List, [], ◌∷◌, All, ◌==◌, Bool-cases, inl, inr,
  u32_mod, subst, arith,
}
use ssoo.Utils.Contexto.{ContextoCpu, EntradaSegmento}
use ssoo.Km.Sticks.{MemoryStick}
use ssoo.Km.Huecos.Cobertura.{cubre}
use ssoo.Km.Segmentos.{buscar_segmento}
use ssoo.Km.Endpoints.Busqueda.{stick_por_id}
use ssoo.Cpu.Mmu.{
  TraduccionMmu, ResultadoMmu, mmu_ok, segmento_no_encontrado, segmentation_fault, mmu_error,
  traducir_direccion_logica,
}
use ssoo.Cpu.Mmu.Proteccion.{traducir_direccion_logica-Protege}
use ssoo.Cpu.Memoria.{traducida, segun_mmu, traducir_o_fallar}

-- A segment lies within the memory, and its entry names a connected stick.
pub record Servido (sticks : List MemoryStick) (fin : ℕ) (s : EntradaSegmento) : Type 0 where
  pub ms : MemoryStick
  pub por_id : stick_por_id s.id_memory_stick sticks ≡ some ms
  pub dentro : s.base + s.limite ≤ fin

-- A range lies in a segment of the context's table, and begins at a connected stick.
pub record Permitido (sticks : List MemoryStick) (fin : ℕ) (ctx : ContextoCpu) (t : TraduccionMmu)
    (n : ℕ) : Type 0 where
  pub segmento : EntradaSegmento
  pub id : ℕ
  pub entrada : buscar_segmento id ctx.segmentos ≡ some segmento
  pub ms : MemoryStick
  pub por_id : stick_por_id t.id_memory_stick sticks ≡ some ms
  pub desde : segmento.base ≤ t.direccion_fisica
  pub hasta : t.direccion_fisica + n ≤ segmento.base + segmento.limite
  pub dentro : t.direccion_fisica + n ≤ fin

pub buscar_segmento-All {ℓ} :
    (P : EntradaSegmento → Type ℓ) (id : ℕ) (ss : List EntradaSegmento) (s : EntradaSegmento)
    → buscar_segmento id ss ≡ some s
    → All P ss
    → P s
unfolding buscar_segmento
buscar_segmento-All P id [] s h a = absurd (cc)
buscar_segmento-All P id (x ∷ ss) s h (p, a) = elim (Bool-cases (x.id_segmento == id)) [
  | inl e ↦ subst P (ground (arith, h, e)) p
  | inr e ↦ buscar_segmento-All P id ss s (ground (arith, h, e)) a
]

segun_mmu-traducida :
    (m : ResultadoMmu) (t : TraduccionMmu) → segun_mmu m ≡ traducida t → m ≡ mmu_ok t
segun_mmu-traducida (mmu_ok u) t h = cc
segun_mmu-traducida segmento_no_encontrado t h = absurd (cc)
segun_mmu-traducida segmentation_fault t h = absurd (cc)
segun_mmu-traducida mmu_error t h = absurd (cc)

cubre-lt : (x base limite : ℕ) → cubre x base limite ≡ 1 → (base ≤ x) × (x < base + limite)
unfolding cubre
cubre-lt x base limite h = ground (arith, h)

pub traducir_o_fallar-Permitido :
    (sticks : List MemoryStick) (fin max : ℕ) (ctx : ContextoCpu) (dir n : ℕ) (t : TraduccionMmu)
    → All (Servido sticks fin) ctx.segmentos
    → dir < u32_mod
    → n < u32_mod
    → 0 < n
    → traducir_o_fallar max ctx dir n ≡ traducida t
    → Permitido sticks fin ctx t n
unfolding traducir_o_fallar
traducir_o_fallar-Permitido sticks fin max ctx dir n t a h k p e =
    let (s, b, fi, ids, c) =
      traducir_direccion_logica-Protege max ctx dir n t h k
        (segun_mmu-traducida (traducir_direccion_logica max (some ctx) dir n) t e) in
    let v = buscar_segmento-All (Servido sticks fin) (dir / max) ctx.segmentos s b a in
    let f = t.direccion_fisica in
    let (l, u) = cubre-lt f s.base s.limite (c f (omega arith) (omega arith)) in
    let (l', u') =
      cubre-lt (f + n - 1) s.base s.limite (c (f + n - 1) (omega arith) (omega arith)) in
    let w = v.dentro in
    record {
      segmento = s;
      id = dir / max;
      entrada = b;
      ms = v.ms;
      por_id = ap (λ i. stick_por_id i sticks) ids ∙ v.por_id;
      desde = l;
      hasta = omega (arith, u');
      dentro = omega (arith, u', w);
    }
