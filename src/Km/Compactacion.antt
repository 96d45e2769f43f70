-- ===== src/Km/Compactacion.antt =====
-- The compaction of the memory: compactar and the branch of MSG_FIN_COMPACTACION of
-- kernel_memory/src/main.c. `list_sort` of so-commons is a parameter; the delay and the locks are left
-- out.
pub mod Punteros
pub mod Separados
pub mod Mudanza
pub mod Contenido
pub mod Resultado
use ssoo.Common.{
  ℕ, zero, suc, ◌+◌, ◌-◌, Option, none, some, List, [], ◌∷◌, ◌++◌, get_elem?, set, ltb, ◌==◌,
  if◌then◌else◌, u32, Bool, true, false,
}
use ssoo.Utils.Contexto.{ContextoCpu, EntradaSegmento}
use ssoo.Km.Huecos.{Hueco, agregar_hueco}
use ssoo.Km.Sticks.{MemoryStick, ms_para_direccion, memoria_total}
use ssoo.Km.Alta.{EstadoMemoria}
use ssoo.Km.Fisica.{Red, leer_fisico, escribir_fisico}
use ssoo.Km.Segmentos.{KmConfig, Creacion, creado, fallo, crear_segmento}
use ssoo.Km.Procesos.{
  EstadoKm, RespuestaKm, error, tabla_segmentos, buscar_contexto, escribir_contexto,
}

-- A pointer into the tables: the place of the context, and of the segment in it.
abbrev pub Puntero : Type 0
Puntero = ℕ × ℕ

-- `list_sort` on a list of such pointers, with its comparator.
abbrev pub ListSort : Type 0
ListSort = (Puntero → Puntero → Bool) → List Puntero → List Puntero

pub punteros_de : ℕ → ℕ → List EntradaSegmento → List Puntero
punteros_de c s [] = []
punteros_de c s (seg ∷ segs) = (c, s) ∷ punteros_de c (suc s) segs

-- The pointers to all segments, from the context `c` on.
pub punteros : ℕ → List ContextoCpu → List Puntero
punteros c [] = []
punteros c (ctx ∷ ctxs) = punteros_de c 0 ctx.segmentos ++ punteros (suc c) ctxs

abbrev pub tabla_en : Option ContextoCpu → List EntradaSegmento
tabla_en none = []
tabla_en (some ctx) = ctx.segmentos

-- What a pointer points to; `none` for one that points nowhere.
unfoldable pub leer_puntero : List ContextoCpu → Puntero → Option EntradaSegmento
leer_puntero ctxs (c, s) = get_elem? (tabla_en (get_elem? ctxs c)) s

abbrev pub escribir_en :
    List ContextoCpu → Puntero → EntradaSegmento → Option ContextoCpu → List ContextoCpu
escribir_en ctxs (c, s) seg none = ctxs
escribir_en ctxs (c, s) seg (some ctx) =
    set ctxs c (record ctx { segmentos = set ctx.segmentos s seg })

unfoldable pub escribir_puntero : List ContextoCpu → Puntero → EntradaSegmento → List ContextoCpu
escribir_puntero ctxs (c, s) seg = escribir_en ctxs (c, s) seg (get_elem? ctxs c)

abbrev pub base_de : Option EntradaSegmento → ℕ
base_de none = 0
base_de (some seg) = seg.base

abbrev pub comparar_base_segmento : List ContextoCpu → Puntero → Puntero → Bool
comparar_base_segmento ctxs a b =
    ltb (base_de (leer_puntero ctxs a)) (base_de (leer_puntero ctxs b))

abbrev pub copiar_datos : Red → List MemoryStick → ℕ → Option (List ℕ) → Red
copiar_datos red sticks cursor none = red
copiar_datos red sticks cursor (some datos) = (escribir_fisico red sticks cursor datos).0

abbrev pub stick_en : Option (MemoryStick × ℕ) → ℕ → ℕ
stick_en none id = id
stick_en (some (ms, dl)) id = ms.id

-- One round of the loop: the connections, the contexts and the cursor after it.
abbrev pub mover :
    Red
    → List MemoryStick
    → List ContextoCpu
    → ℕ
    → Puntero
    → Option EntradaSegmento
    → (Red × List ContextoCpu) × ℕ
mover red sticks ctxs cursor p none = ((red, ctxs), cursor)
mover red sticks ctxs cursor p (some seg) = (
  if seg.base == cursor then (red, ctxs) else (
    copiar_datos red sticks cursor (leer_fisico red sticks seg.base seg.limite),
    escribir_puntero ctxs p (record seg {
      base = cursor;
      id_memory_stick = stick_en (ms_para_direccion cursor sticks) seg.id_memory_stick;
    }),
  ),
  u32 (cursor + seg.limite),
)

unfoldable pub compactar_desde :
    List MemoryStick → List Puntero → (Red × List ContextoCpu) × ℕ → (Red × List ContextoCpu) × ℕ
compactar_desde sticks [] ((red, ctxs), cursor) = ((red, ctxs), cursor)
compactar_desde sticks (p ∷ ps) ((red, ctxs), cursor) =
    compactar_desde sticks ps (mover red sticks ctxs cursor p (leer_puntero ctxs p))

abbrev pub hueco_final : ℕ → ℕ → List Hueco
hueco_final cursor total = if ltb cursor total then agregar_hueco cursor (total - cursor) [] else []

abbrev pub reconstruir : EstadoKm → (Red × List ContextoCpu) × ℕ → Red × EstadoKm
reconstruir e ((red, ctxs), cursor) = (
  red,
  record e {
    memoria = record e.memoria {
      huecos = hueco_final cursor (memoria_total e.memoria.memory_sticks);
    };
    contextos = ctxs;
  },
)

unfoldable pub compactar : ListSort → Red → EstadoKm → Red × EstadoKm
unfolding punteros punteros_de
compactar list_sort red e = reconstruir e (
    compactar_desde e.memoria.memory_sticks
      (list_sort (comparar_base_segmento e.contextos) (punteros 0 e.contextos))
      ((red, e.contextos), 0))

-- The state and the answer after the creation that had waited.
abbrev pub tras_pendiente :
    EstadoKm → ℕ → Creacion × ContextoCpu × List Hueco → EstadoKm × RespuestaKm
tras_pendiente e pid (res, ctx, huecos) = (
  record e {
    memoria = record e.memoria { huecos = huecos };
    contextos = escribir_contexto e.contextos pid ctx;
    pendiente = none;
  },
  elim res [ creado ↦ tabla_segmentos ctx | _ ↦ error ],
)

abbrev pub crear_pendiente :
    KmConfig → EstadoKm → ℕ → ℕ → ℕ → Option ContextoCpu → EstadoKm × RespuestaKm
crear_pendiente config e pid id_seg tamanio none = (record e { pendiente = none }, error)
crear_pendiente config e pid id_seg tamanio (some ctx) =
    tras_pendiente e pid
      (crear_segmento config e.memoria.memory_sticks ctx id_seg tamanio e.memoria.huecos)

abbrev pub responder_pendiente :
    KmConfig → EstadoKm → Option (ℕ × ℕ × ℕ) → EstadoKm × Option RespuestaKm
responder_pendiente config e none = (e, none)
responder_pendiente config e (some (pid, id_seg, tamanio)) =
    let (e', resp) =
      crear_pendiente config e pid id_seg tamanio (buscar_contexto e.contextos pid) in
    (e', some resp)

-- MSG_FIN_COMPACTACION; no answer is sent if no request waits.
unfoldable pub pedido_fin_compactacion :
    ListSort → KmConfig → Red → EstadoKm → Red × EstadoKm × Option RespuestaKm
pedido_fin_compactacion list_sort config red e =
    let (red', e') = compactar list_sort red e in
    let (e'', resp) = responder_pendiente config e' e'.pendiente in (red', e'', resp)
