-- ===== src/Cpu/Mmu.antt =====
-- The MMU of the CPU: cpu/src/cpu_mmu.c. `g_segment_max_size` is an argument; `contexto` may be
-- NULL, and the pointer for the result never is.
pub mod Proteccion
use ssoo.Common.{
  ℕ, ◌+◌, ◌-◌, ◌/◌, ◌%◌, Option, none, some, List, [], ◌∷◌, ltb, ◌==◌, if◌then◌else◌, u32,
  uint32_max, ◌||◌,
}
use ssoo.Utils.Contexto.{ContextoCpu, EntradaSegmento}

pub record TraduccionMmu : Type 0 where
  pub id_segmento : ℕ
  pub desplazamiento : ℕ
  pub id_memory_stick : ℕ
  pub direccion_fisica : ℕ
  pub limite_segmento : ℕ

-- CPU_MMU_OK comes with what is written through the pointer.
pub data ResultadoMmu : Type 0 where
  mmu_ok : TraduccionMmu → ResultadoMmu
  segmento_no_encontrado segmentation_fault mmu_error : ResultadoMmu

-- The loop of `buscar_segmento`.
unfoldable pub buscar_en : List EntradaSegmento → ℕ → Option EntradaSegmento
buscar_en [] id_segmento = none
buscar_en (s ∷ ss) id_segmento =
    if s.id_segmento == id_segmento then some s else buscar_en ss id_segmento

abbrev pub con_segmento : ℕ → ℕ → ℕ → Option EntradaSegmento → ResultadoMmu
con_segmento id_segmento desplazamiento tamanio none = segmento_no_encontrado
con_segmento id_segmento desplazamiento tamanio (some segmento) =
    if ltb (uint32_max - tamanio) desplazamiento
      || ltb segmento.limite (u32 (desplazamiento + tamanio))
    then segmentation_fault
    else if ltb (uint32_max - desplazamiento) segmento.base
    then mmu_error
    else mmu_ok (record {
      id_segmento = id_segmento;
      desplazamiento = desplazamiento;
      id_memory_stick = segmento.id_memory_stick;
      direccion_fisica = u32 (segmento.base + desplazamiento);
      limite_segmento = segmento.limite;
    })

unfoldable pub traducir_direccion_logica : ℕ → Option ContextoCpu → ℕ → ℕ → ResultadoMmu
traducir_direccion_logica tamanio_max none direccion_logica tamanio = mmu_error
traducir_direccion_logica tamanio_max (some contexto) direccion_logica tamanio =
    if tamanio == 0 || tamanio_max == 0
    then mmu_error
    else con_segmento (direccion_logica / tamanio_max) (direccion_logica % tamanio_max) tamanio
        (buscar_en contexto.segmentos (direccion_logica / tamanio_max))
