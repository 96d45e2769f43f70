-- ===== src/Km/Procesos.antt =====
-- The contexts of the processes and the requests on them: buscar_contexto and the branches of
-- MSG_CREAR_PROCESO, MSG_CREAR_SEGMENTO and MSG_ELIMINAR_SEGMENTO of kernel_memory/src/main.c. A
-- payload is given by its fields; the paths of the scripts are left out.
pub mod Sistema
pub mod Particion
use ssoo.Common.{ℕ, ◌+◌, Option, none, some, List, [], ◌∷◌, ◌++◌, ◌==◌, if◌then◌else◌, Bool}
use ssoo.Utils.Contexto.{ContextoCpu, RegistrosCpu}
use ssoo.Cpu.Registros.{inicializar_registros_cpu}
use ssoo.Km.Huecos.{Hueco}
use ssoo.Km.Sticks.{MemoryStick}
use ssoo.Km.Alta.{EstadoMemoria}
use ssoo.Km.Segmentos.{
  KmConfig, Creacion, creado, compactar, fallo, crear_segmento, eliminar_segmento,
}

-- The memory, the contexts, and the request that waits for a compaction: compact_pend_pid,
-- compact_pend_id_seg and compact_pend_tamanio while compact_pend_activo.
pub record EstadoKm : Type 0 where
  pub memoria : EstadoMemoria
  pub contextos : List ContextoCpu
  pub pendiente : Option (ℕ × ℕ × ℕ)

unfoldable pub buscar_contexto : List ContextoCpu → ℕ → Option ContextoCpu
buscar_contexto [] pid = none
buscar_contexto (c ∷ cs) pid = if c.pid == pid then some c else buscar_contexto cs pid

-- The list after writes through the pointer that buscar_contexto returned for this PID.
unfoldable pub escribir_contexto : List ContextoCpu → ℕ → ContextoCpu → List ContextoCpu
escribir_contexto [] pid nuevo = []
escribir_contexto (c ∷ cs) pid nuevo =
    if c.pid == pid then nuevo ∷ cs else c ∷ escribir_contexto cs pid nuevo

-- The answers: MSG_OK, MSG_ERROR, MSG_COMPACTAR, and MSG_TABLA_SEGMENTOS with the context.
pub data RespuestaKm : Type 0 where
  ok error pide_compactar : RespuestaKm
  tabla_segmentos : ContextoCpu → RespuestaKm

-- A context of calloc has all its registers 0.
unfoldable pub pedido_crear_proceso : EstadoKm → ℕ → EstadoKm × RespuestaKm
pedido_crear_proceso e pid = elim (buscar_contexto e.contextos pid) [
  | some c ↦ (e, error)
  | none ↦ (
    record e {
      contextos =
          e.contextos
          ++ record { pid = pid; registros = inicializar_registros_cpu; segmentos = [] } ∷ [];
    },
    ok,
  )
]

-- The state after crear_segmento has returned, and the answer.
abbrev pub tras_crear :
    EstadoKm → ℕ → ℕ → ℕ → Creacion × ContextoCpu × List Hueco → EstadoKm × RespuestaKm
tras_crear e pid id_seg tamanio (creado, ctx, huecos) = (
  record e {
    memoria = record e.memoria { huecos = huecos };
    contextos = escribir_contexto e.contextos pid ctx;
  },
  tabla_segmentos ctx,
)
tras_crear e pid id_seg tamanio (compactar, ctx, huecos) = (
  record e {
    memoria = record e.memoria { huecos = huecos };
    contextos = escribir_contexto e.contextos pid ctx;
    pendiente = some (pid, id_seg, tamanio);
  },
  pide_compactar,
)
tras_crear e pid id_seg tamanio (fallo, ctx, huecos) = (
  record e {
    memoria = record e.memoria { huecos = huecos };
    contextos = escribir_contexto e.contextos pid ctx;
  },
  error,
)

unfoldable pub pedido_crear_segmento : KmConfig → EstadoKm → ℕ → ℕ → ℕ → EstadoKm × RespuestaKm
pedido_crear_segmento config e pid id_seg tamanio = elim (buscar_contexto e.contextos pid) [
  | none ↦ (e, error)
  | some ctx ↦
      tras_crear e pid id_seg tamanio
        (crear_segmento config e.memoria.memory_sticks ctx id_seg tamanio e.memoria.huecos)
]

-- The state after eliminar_segmento.
abbrev pub tras_eliminar : EstadoKm → ℕ → ContextoCpu × List Hueco → EstadoKm
tras_eliminar e pid (ctx, huecos) = record e {
  memoria = record e.memoria { huecos = huecos };
  contextos = escribir_contexto e.contextos pid ctx;
}

unfoldable pub pedido_eliminar_segmento : EstadoKm → ℕ → ℕ → EstadoKm × RespuestaKm
pedido_eliminar_segmento e pid id_seg = elim (buscar_contexto e.contextos pid) [
  | none ↦ (e, ok)
  | some ctx ↦ (tras_eliminar e pid (eliminar_segmento ctx id_seg e.memoria.huecos), ok)
]
