-- ===== src/Km/Procesos/Sistema.antt =====
-- Kernel Memory as a system: every state that its requests reach. kernel_memory/src/main.c.
use ssoo.Common.{ℕ, ◌+◌, ◌≡◌, ◌<◌, refl, Option, none, some, List, [], u32_mod, arith}
use ssoo.Km.Huecos.Cobertura.{libre}
use ssoo.Km.Alta.{EstadoMemoria, leer_identificacion, identificar_memory_stick}
use ssoo.Km.Segmentos.{KmConfig}
use ssoo.Km.Procesos.{
  EstadoKm, pedido_crear_proceso, pedido_crear_segmento, pedido_eliminar_segmento,
}
use ssoo.Km.Procesos.Particion.{
  Particionada, ocupado_total, identificar-Particionada, pedido_crear_proceso-Particionada,
  pedido_crear_segmento-Particionada, pedido_eliminar_segmento-Particionada,
}

-- The state that main starts with.
abbrev pub inicial : EstadoKm
inicial = record {
  memoria = record { memory_sticks = []; huecos = []; next_ms_id = 0 };
  contextos = [];
  pendiente = none;
}

-- One request that is served. The size that a payload tells is a word of 32 bits.
pub data Paso (config : KmConfig) : EstadoKm → EstadoKm → Type 0 where
  identificar :
      (e : EstadoKm) (fd : ℕ) (peer : Option ℕ) (payload : List ℕ) (tamanio puerto offset : ℕ)
      (m : EstadoMemoria)
      → leer_identificacion payload ≡ some (tamanio, puerto)
      → tamanio < u32_mod
      → identificar_memory_stick e.memoria fd peer payload ≡ some (m, offset)
      → Paso config e (record e { memoria = m })
  crear_proceso : (e : EstadoKm) (pid : ℕ) → Paso config e (pedido_crear_proceso e pid).0
  crear_segmento :
      (e : EstadoKm) (pid id_seg tamanio : ℕ)
      → Paso config e (pedido_crear_segmento config e pid id_seg tamanio).0
  eliminar_segmento :
      (e : EstadoKm) (pid id_seg : ℕ) → Paso config e (pedido_eliminar_segmento e pid id_seg).0

pub data Alcanzable (config : KmConfig) : EstadoKm → Type 0 where
  inicio : Alcanzable config inicial
  sigue : (e e' : EstadoKm) → Alcanzable config e → Paso config e e' → Alcanzable config e'

inicial-Particionada : Particionada inicial 0
unfolding libre ocupado_total
inicial-Particionada = record {
  formada = record { contiguos = refl; fin_cabe = omega arith; huecos_en_rango = tt };
  fisicos = tt;
  reparto = λ x. ground arith;
}

paso-Particionada :
    (config : KmConfig) (e e' : EstadoKm) (fin : ℕ)
    → Paso config e e'
    → Particionada e fin
    → (fin' : ℕ) × Particionada e' fin'
paso-Particionada config _ _ fin (identificar e fd peer payload t p o m l c i) h =
    (fin + t, identificar-Particionada e fin fd peer payload t p o m h l c i)
paso-Particionada config _ _ fin (crear_proceso e pid) h =
    (fin, pedido_crear_proceso-Particionada e fin pid h)
paso-Particionada config _ _ fin (crear_segmento e pid i t) h =
    (fin, pedido_crear_segmento-Particionada config e fin pid i t h)
paso-Particionada config _ _ fin (eliminar_segmento e pid i) h =
    (fin, pedido_eliminar_segmento-Particionada e fin pid i h)

-- In every state that identifications of sticks, and requests to create processes and to create and
-- remove segments, reach in any order from the start, each address of the connected memory lies in
-- exactly one free range or one segment of one process, and no other address in any. The sticks
-- are consecutive, the ranges fit 32 bits, and the ids of each table are distinct.
pub alcanzable-Particionada :
    (config : KmConfig) (e : EstadoKm) → Alcanzable config e → (fin : ℕ) × Particionada e fin
alcanzable-Particionada config _ inicio = (0, inicial-Particionada)
alcanzable-Particionada config _ (sigue e e' a p) =
    let (fin, h) = alcanzable-Particionada config e a in paso-Particionada config e e' fin p h
