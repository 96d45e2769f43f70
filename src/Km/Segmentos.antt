-- ===== src/Km/Segmentos.antt =====
-- Segments of kernel_memory/src/main.c: address translation, creation and removal. The callers pass
-- a context that exists, so its NULL test is left out; memory for the table is assumed.
pub mod Particion
pub mod Liberacion
pub mod Creado
use ssoo.Common.{
  ℕ, suc, ◌+◌, ◌-◌, ◌*◌, ◌/◌, ◌%◌, ◌<◌, Option, none, some, List, [], ◌∷◌, ◌++◌, length, leb, ltb,
  ◌==◌, if◌then◌else◌, u32, uint32_max, Bool, true, false, ◌&&◌, ◌||◌, Texto, ℤ, pos, negsuc,
}
use ssoo.Utils.Contexto.{ContextoCpu, EntradaSegmento}
use ssoo.Km.Huecos.{Hueco, agregar_hueco, fusionar_huecos, seleccionar_hueco, ocupar_hueco}
use ssoo.Km.Sticks.{MemoryStick, ms_para_direccion}

-- SEGMENT_MAX_SIZE and ALLOCATION_STRATEGY of the configuration.
pub record KmConfig : Type 0 where
  pub segment_max_size : ℤ
  pub allocation_strategy : Texto

-- The first entry of the table with that id.
unfoldable pub buscar_segmento : ℕ → List EntradaSegmento → Option EntradaSegmento
buscar_segmento id [] = none
buscar_segmento id (s ∷ ss) = if s.id_segmento == id then some s else buscar_segmento id ss

abbrev pub dentro_de_segmento : ℕ → ℕ → Option EntradaSegmento → ℕ
dentro_de_segmento desplazamiento tamanio none = uint32_max
dentro_de_segmento desplazamiento tamanio (some seg) =
    if ltb seg.limite desplazamiento || ltb (seg.limite - desplazamiento) tamanio
    then uint32_max
    else if ltb (uint32_max - desplazamiento) seg.base
    then uint32_max
    else u32 (seg.base + desplazamiento)

-- UINT32_MAX stands for a segmentation fault.
unfoldable pub traducir_direccion : ℤ → ContextoCpu → ℕ → ℕ → ℕ
traducir_direccion (negsuc n) ctx dir_logica tamanio_acceso = uint32_max
traducir_direccion (pos seg_max) ctx dir_logica tamanio_acceso =
    if seg_max == 0 || tamanio_acceso == 0
    then uint32_max
    else dentro_de_segmento (dir_logica % seg_max) tamanio_acceso
        (buscar_segmento (dir_logica / seg_max) ctx.segmentos)

-- The results 0, 1 and -1.
pub data Creacion : Type 0 where
  creado compactar fallo : Creacion

-- `libre_total`, in 32 bits.
unfoldable pub libre_total : ℕ → List Hueco → ℕ
libre_total total [] = total
libre_total total (h ∷ hs) = libre_total (u32 (total + h.tamanio)) hs

abbrev pub sin_hueco : ℕ → ContextoCpu → List Hueco → Creacion × ContextoCpu × List Hueco
sin_hueco tamanio ctx huecos =
    (if leb tamanio (libre_total 0 huecos) then compactar else fallo, ctx, huecos)

abbrev pub agregar_segmento :
    ℕ
    → ℕ
    → ContextoCpu
    → ℕ × Hueco
    → List Hueco
    → Option (MemoryStick × ℕ)
    → Creacion × ContextoCpu × List Hueco
agregar_segmento id_seg tamanio ctx elegido huecos none = (fallo, ctx, huecos)
agregar_segmento id_seg tamanio ctx (i, h) huecos (some (ms, dir_local)) =
    if length ctx.segmentos == uint32_max then (fallo, ctx, huecos) else (
      creado,
      record ctx {
        segmentos =
            ctx.segmentos
            ++ record {
              id_segmento = id_seg;
              id_memory_stick = ms.id;
              base = h.base_global;
              limite = tamanio;
            }
              ∷ [];
      },
      ocupar_hueco tamanio (i, h) huecos,
    )

abbrev pub asignar :
    List MemoryStick
    → ℕ
    → ℕ
    → ContextoCpu
    → List Hueco
    → Option (ℕ × Hueco)
    → Creacion × ContextoCpu × List Hueco
asignar sticks id_seg tamanio ctx huecos none = sin_hueco tamanio ctx huecos
asignar sticks id_seg tamanio ctx huecos (some (i, h)) =
    agregar_segmento id_seg tamanio ctx (i, h) huecos (ms_para_direccion h.base_global sticks)

abbrev pub ya_existe : Option EntradaSegmento → Bool
ya_existe none = false
ya_existe (some s) = true

abbrev pub crear_con :
    ℤ
    → KmConfig
    → List MemoryStick
    → ContextoCpu
    → ℕ
    → ℕ
    → List Hueco
    → Creacion × ContextoCpu × List Hueco
crear_con (negsuc n) config sticks ctx id_seg tamanio huecos = (fallo, ctx, huecos)
crear_con (pos seg_max) config sticks ctx id_seg tamanio huecos =
    if seg_max == 0 || (tamanio == 0 || ltb seg_max tamanio)
    then (fallo, ctx, huecos)
    else if ya_existe (buscar_segmento id_seg ctx.segmentos)
    then (fallo, ctx, huecos)
    else asignar sticks id_seg tamanio ctx huecos
        (seleccionar_hueco config.allocation_strategy tamanio huecos)

-- The result, the context and the free ranges after the call.
unfoldable pub crear_segmento :
    KmConfig
    → List MemoryStick
    → ContextoCpu
    → ℕ
    → ℕ
    → List Hueco
    → Creacion × ContextoCpu × List Hueco
crear_segmento config = crear_con config.segment_max_size config

-- The table without its first entry with that id.
unfoldable pub quitar_segmento : ℕ → List EntradaSegmento → List EntradaSegmento
quitar_segmento id [] = []
quitar_segmento id (s ∷ ss) = if s.id_segmento == id then ss else s ∷ quitar_segmento id ss

abbrev pub liberar : Option EntradaSegmento → List Hueco → List Hueco
liberar none huecos = huecos
liberar (some s) huecos = fusionar_huecos (agregar_hueco s.base s.limite huecos)

unfoldable pub eliminar_segmento : ContextoCpu → ℕ → List Hueco → ContextoCpu × List Hueco
eliminar_segmento ctx id_seg huecos = (
  record ctx { segmentos = quitar_segmento id_seg ctx.segmentos },
  liberar (buscar_segmento id_seg ctx.segmentos) huecos,
)
