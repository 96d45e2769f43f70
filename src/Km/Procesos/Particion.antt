-- ===== src/Km/Procesos/Particion.antt =====
-- The partition of the physical addresses among the free ranges and the segments of all processes:
-- kernel_memory/src/main.c.
use ssoo.Common.{
  ℕ, ◌+◌, ◌≡◌, ◌<◌, refl, ap, subst, Option, some, List, [], ◌∷◌, ◌++◌, All, All-append, ltb, ◌==◌,
  if◌then◌else◌, Bool-cases, Option-cases, inl, inr, arith, u32_mod,
}
use ssoo.Utils.Contexto.{ContextoCpu}
use ssoo.Cpu.Registros.{inicializar_registros_cpu}
use ssoo.Km.Huecos.{Hueco}
use ssoo.Km.Huecos.Cobertura.{cubre, libre}
use ssoo.Km.Alta.{EstadoMemoria, leer_identificacion, identificar_memory_stick}
use ssoo.Km.Alta.Particion.{MemoriaFormada, identificar_memory_stick-Sumado}
use ssoo.Km.Segmentos.{
  KmConfig, Creacion, creado, compactar, fallo, crear_segmento, eliminar_segmento,
}
use ssoo.Km.Segmentos.Particion.{
  ocupado, SegmentoFisico, IdsDistintos, TablaEnRango, Conserva, crear_segmento-Conserva,
}
use ssoo.Km.Segmentos.Liberacion.{eliminar_segmento-Conserva}
use ssoo.Km.Procesos.{
  EstadoKm, buscar_contexto, escribir_contexto, pedido_crear_proceso, tras_crear,
  pedido_crear_segmento, pedido_eliminar_segmento,
}

-- The number of segments, over all processes, that hold the address `x`.
unfoldable pub ocupado_total : ℕ → List ContextoCpu → ℕ
ocupado_total x [] = 0
ocupado_total x (c ∷ cs) = ocupado x c.segmentos + ocupado_total x cs

pub record ContextoFisico (c : ContextoCpu) : Type 0 where
  pub segmentos_fisicos : All SegmentoFisico c.segmentos
  pub distintos : IdsDistintos c.segmentos

-- 1 for an address below `fin`, 0 for any other.
abbrev pub existe : ℕ → ℕ → ℕ
existe x fin = if ltb x fin then 1 else 0

-- Every address of the memory is in exactly one free range or segment, every other in none.
pub record Particionada (e : EstadoKm) (fin : ℕ) : Type 0 where
  pub formada : MemoriaFormada e.memoria fin
  pub fisicos : All ContextoFisico e.contextos
  pub reparto : (x : ℕ) → libre x e.memoria.huecos + ocupado_total x e.contextos ≡ existe x fin

ocupado_total-escribir :
    (x : ℕ) (cs : List ContextoCpu) (pid : ℕ) (c nuevo : ContextoCpu)
    → buscar_contexto cs pid ≡ some c
    → ocupado_total x (escribir_contexto cs pid nuevo) + ocupado x c.segmentos
      ≡ ocupado_total x cs + ocupado x nuevo.segmentos
unfolding ocupado_total buscar_contexto escribir_contexto
ocupado_total-escribir x [] pid c nuevo e = absurd (cc)
ocupado_total-escribir x (d ∷ cs) pid c nuevo e = elim (Bool-cases (d.pid == pid)) [
  | inl q ↦
      let p : d ≡ c = ground (arith, e, q) in
      rw q (omega (arith, ap (λ (z : ContextoCpu). ocupado x z.segmentos) p))
  | inr q ↦ rw q (omega (arith, ocupado_total-escribir x cs pid c nuevo (ground (arith, e, q))))
]

ocupado_total-append :
    (x : ℕ) (cs : List ContextoCpu) (c : ContextoCpu)
    → ocupado_total x (cs ++ c ∷ []) ≡ ocupado_total x cs + ocupado x c.segmentos
unfolding ocupado_total
ocupado_total-append x [] c = omega arith
ocupado_total-append x (d ∷ cs) c = omega (arith, ocupado_total-append x cs c)

buscar-All :
    (cs : List ContextoCpu) (pid : ℕ) (c : ContextoCpu)
    → buscar_contexto cs pid ≡ some c
    → All ContextoFisico cs
    → ContextoFisico c
unfolding buscar_contexto
buscar-All [] pid c e h = absurd (cc)
buscar-All (d ∷ cs) pid c e (hd, h) = elim (Bool-cases (d.pid == pid)) [
  | inl q ↦ let p : d ≡ c = ground (arith, e, q) in subst ContextoFisico p hd
  | inr q ↦ buscar-All cs pid c (ground (arith, e, q)) h
]

escribir-All :
    (cs : List ContextoCpu) (pid : ℕ) (nuevo : ContextoCpu)
    → All ContextoFisico cs
    → ContextoFisico nuevo
    → All ContextoFisico (escribir_contexto cs pid nuevo)
unfolding escribir_contexto
escribir-All [] pid nuevo h k = h
escribir-All (d ∷ cs) pid nuevo (hd, h) k = elim (Bool-cases (d.pid == pid)) [
  | inl q ↦ rw q (k, h)
  | inr q ↦ rw q (hd, escribir-All cs pid nuevo h k)
]

-- A change of one context and of the free ranges that conserves the addresses.
cambio :
    (e : EstadoKm) (fin pid : ℕ) (c nuevo : ContextoCpu) (hs : List Hueco) (p : Option (ℕ × ℕ × ℕ))
    → Particionada e fin
    → buscar_contexto e.contextos pid ≡ some c
    → Conserva c.segmentos e.memoria.huecos nuevo.segmentos hs
    → TablaEnRango nuevo.segmentos hs
    → Particionada
        (record {
          memoria = record e.memoria { huecos = hs };
          contextos = escribir_contexto e.contextos pid nuevo;
          pendiente = p;
        })
        fin
cambio e fin pid c nuevo hs p h b k t = record {
  formada = record {
    contiguos = h.formada.contiguos;
    fin_cabe = h.formada.fin_cabe;
    huecos_en_rango = t.huecos_en_rango;
  };
  fisicos =
      escribir-All e.contextos pid nuevo h.fisicos
        (record { segmentos_fisicos = t.segmentos_en_rango; distintos = t.ids_distintos });
  reparto =
      λ x. omega (arith, h.reparto x, k x, ocupado_total-escribir x e.contextos pid c nuevo b);
}

tabla :
    (e : EstadoKm) (fin pid : ℕ) (c : ContextoCpu)
    → Particionada e fin
    → buscar_contexto e.contextos pid ≡ some c
    → TablaEnRango c.segmentos e.memoria.huecos
tabla e fin pid c h b =
    let f = buscar-All e.contextos pid c b h.fisicos in
    record {
      huecos_en_rango = h.formada.huecos_en_rango;
      segmentos_en_rango = f.segmentos_fisicos;
      ids_distintos = f.distintos;
    }

tras_crear-Particionada :
    (e : EstadoKm) (fin pid id_seg tamanio : ℕ) (c : ContextoCpu)
    (r : Creacion × ContextoCpu × List Hueco)
    → Particionada e fin
    → buscar_contexto e.contextos pid ≡ some c
    → Conserva c.segmentos e.memoria.huecos r.1.segmentos r.2
    → TablaEnRango r.1.segmentos r.2
    → Particionada (tras_crear e pid id_seg tamanio r).0 fin
tras_crear-Particionada e fin pid i t c (creado, n, hs) h b k f =
    cambio e fin pid c n hs e.pendiente h b k f
tras_crear-Particionada e fin pid i t c (compactar, n, hs) h b k f =
    cambio e fin pid c n hs (some (pid, i, t)) h b k f
tras_crear-Particionada e fin pid i t c (fallo, n, hs) h b k f =
    cambio e fin pid c n hs e.pendiente h b k f

pub pedido_crear_segmento-Particionada :
    (config : KmConfig) (e : EstadoKm) (fin pid id_seg tamanio : ℕ)
    → Particionada e fin
    → Particionada (pedido_crear_segmento config e pid id_seg tamanio).0 fin
unfolding pedido_crear_segmento
pedido_crear_segmento-Particionada config e fin pid i t h =
    elim (Option-cases (buscar_contexto e.contextos pid)) [
      | inl b ↦ rw (b, pedido_crear_segmento) h
      | inr (c, b) ↦
          let (k, f) =
            crear_segmento-Conserva config e.memoria.memory_sticks c i t e.memoria.huecos
              (tabla e fin pid c h b) in
          rw (b, pedido_crear_segmento)
            (tras_crear-Particionada e fin pid i t c
              (crear_segmento config e.memoria.memory_sticks c i t e.memoria.huecos) h b k f)
    ]

pub pedido_eliminar_segmento-Particionada :
    (e : EstadoKm) (fin pid id_seg : ℕ)
    → Particionada e fin
    → Particionada (pedido_eliminar_segmento e pid id_seg).0 fin
unfolding pedido_eliminar_segmento
pedido_eliminar_segmento-Particionada e fin pid i h =
    elim (Option-cases (buscar_contexto e.contextos pid)) [
      | inl b ↦ rw (b, pedido_eliminar_segmento) h
      | inr (c, b) ↦
          let (d, k, f, n) =
            eliminar_segmento-Conserva c i e.memoria.huecos (tabla e fin pid c h b) in
          let r = eliminar_segmento c i e.memoria.huecos in
          rw (b, pedido_eliminar_segmento) (cambio e fin pid c r.0 r.1 e.pendiente h b k f)
    ]

abbrev vacio : ℕ → ContextoCpu
vacio pid = record { pid = pid; registros = inicializar_registros_cpu; segmentos = [] }

ocupado-vacio : (x pid : ℕ) → ocupado x (vacio pid).segmentos ≡ 0
unfolding ocupado
ocupado-vacio x pid = refl

pub pedido_crear_proceso-Particionada :
    (e : EstadoKm) (fin pid : ℕ)
    → Particionada e fin
    → Particionada (pedido_crear_proceso e pid).0 fin
unfolding pedido_crear_proceso
pedido_crear_proceso-Particionada e fin pid h =
    elim (Option-cases (buscar_contexto e.contextos pid)) [
      | inr (c, b) ↦ rw (b, pedido_crear_proceso) h
      | inl b ↦
          rw (b, pedido_crear_proceso)
            (record {
              formada = h.formada;
              fisicos =
                  All-append ContextoFisico e.contextos (vacio pid ∷ []) h.fisicos
                    (record { segmentos_fisicos = tt; distintos = tt }, tt);
              reparto = λ x. omega (
                arith,
                h.reparto x,
                ocupado_total-append x e.contextos (vacio pid),
                ocupado-vacio x pid,
              );
            })
    ]

-- A new stick adds its addresses to the free ranges.
pub identificar-Particionada :
    (e : EstadoKm) (fin fd : ℕ) (peer : Option ℕ) (payload : List ℕ) (tamanio puerto offset : ℕ)
    (m : EstadoMemoria)
    → Particionada e fin
    → leer_identificacion payload ≡ some (tamanio, puerto)
    → tamanio < u32_mod
    → identificar_memory_stick e.memoria fd peer payload ≡ some (m, offset)
    → Particionada (record e { memoria = m }) (fin + tamanio)
unfolding cubre
identificar-Particionada e fin fd peer payload t p o m h l c i =
    let (ofs, f, s) =
      identificar_memory_stick-Sumado e.memoria fin fd peer payload t p (m, o) h.formada l c i in
    record {
      formada = f;
      fisicos = h.fisicos;
      reparto = λ x.
          let r : libre x e.memoria.huecos + ocupado_total x e.contextos ≡ existe x fin =
            h.reparto x in
          let q : libre x m.huecos ≡ libre x e.memoria.huecos + cubre x fin t = s x in
          let k : cubre x fin t + existe x fin ≡ existe x (fin + t) = ground arith in
          omega (arith, r, q, k);
    }
