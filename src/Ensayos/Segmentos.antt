-- ===== src/Ensayos/Segmentos.antt =====
-- Tests of the segments and of the free ranges: kernel_memory/src/main.c.
use ssoo.Common.{
  ℕ, ◌≡◌, ◌≢◌, ◌+◌, refl, none, some, List, [], ◌∷◌, true, false, codes, strcmp, u32, pos, All,
  get_elem?, arith, ntohl,
}
use ssoo.Utils.Contexto.{ContextoCpu, EntradaSegmento}
use ssoo.Cpu.Registros.{inicializar_registros_cpu}
use ssoo.Km.Huecos.{
  Hueco, fusionar_huecos, fusionar_rondas, buscar_fusion, buscar_contiguo, agregar_hueco,
  seleccionar_hueco,
}
use ssoo.Km.Huecos.Cobertura.{libre, HuecoEnRango}
use ssoo.Km.Huecos.Ajuste.{Elegido, MayorIgual, MenorIgual, seleccionar_hueco-Elegido}
use ssoo.Km.Huecos.Fusion.{fusionar_huecos-libre, fusionar_huecos-fin}
use ssoo.Km.Sticks.{MemoryStick, nuevo_stick, memoria_total}
use ssoo.Km.Segmentos.{KmConfig, buscar_segmento, crear_segmento, eliminar_segmento}
use ssoo.Km.Segmentos.Particion.{TablaEnRango, Conserva, crear_segmento-Conserva}
use ssoo.Km.Segmentos.Liberacion.{Eliminado, eliminar_segmento-Conserva}
use ssoo.Km.Alta.{EstadoMemoria, leer_identificacion, identificar_memory_stick}
use ssoo.Km.Procesos.{EstadoKm, pedido_crear_proceso, pedido_crear_segmento}
use ssoo.Km.Procesos.Particion.{Particionada}
use ssoo.Km.Procesos.Sistema.{Alcanzable, Paso, inicial, alcanzable-Particionada}
use ssoo.Km.Segmentos.Creado.{Creado, crear_segmento-Creado}

abbrev un_stick : MemoryStick
un_stick = record {
  id = 0;
  fd = 10;
  tamanio = 64;
  offset_global = 0;
  ipv4 = 1;
  puerto = 9000;
  activo = true;
}

abbrev config : KmConfig
config = record { segment_max_size = pos 32; allocation_strategy = codes "BEST" }

abbrev un_segmento : EntradaSegmento
un_segmento = record { id_segmento = 0; id_memory_stick = 0; base = 8; limite = 8 }

abbrev ctx : ContextoCpu
ctx = record { pid = 1; registros = inicializar_registros_cpu; segmentos = un_segmento ∷ [] }

abbrev huecos : List Hueco
huecos = record { base_global = 0; tamanio = 8 } ∷ record { base_global = 16; tamanio = 48 } ∷ []

huecos-EnRango : All HuecoEnRango huecos
huecos-EnRango = (omega arith, (omega arith, tt))

tabla-EnRango : TablaEnRango (un_segmento ∷ []) huecos
tabla-EnRango = record {
  huecos_en_rango = huecos-EnRango;
  segmentos_en_rango = (record { no_vacio = omega arith; cabe = omega arith }, tt);
  ids_distintos = (sin_ids, tt);
}
  where
    sin_ids : buscar_segmento 0 [] ≡ none
    sin_ids = unfold buscar_segmento in refl

crear_segmento-Conserva_example :
    let r = crear_segmento config (un_stick ∷ []) ctx 1 12 huecos in
    Conserva (un_segmento ∷ []) huecos r.1.segmentos r.2 × TablaEnRango r.1.segmentos r.2
crear_segmento-Conserva_example =
    crear_segmento-Conserva config (un_stick ∷ []) ctx 1 12 huecos tabla-EnRango

sin_uno : buscar_segmento 1 (un_segmento ∷ []) ≡ none
unfolding buscar_segmento
sin_uno = refl

crear_segmento-Creado_example :
    Creado 1 12 huecos (crear_segmento config (un_stick ∷ []) ctx 1 12 huecos)
crear_segmento-Creado_example =
    crear_segmento-Creado 32 (codes "BEST") (un_stick ∷ []) 64 ctx 1 12 huecos 1
      (record { base_global = 16; tamanio = 48 }) (refl, omega arith, refl) (refl, tt)
      (omega arith, (omega arith, tt)) (omega arith) (omega arith) sin_uno (omega arith) refl
      (omega arith)

eliminar_segmento-Conserva_example :
    let r = eliminar_segmento ctx 0 huecos in
    Eliminado ctx 0 huecos r
    × Conserva (un_segmento ∷ []) huecos r.0.segmentos r.1
    × TablaEnRango r.0.segmentos r.1
    × (buscar_segmento 0 r.0.segmentos ≡ none)
eliminar_segmento-Conserva_example = eliminar_segmento-Conserva ctx 0 huecos tabla-EnRango

abbrev contiguos : List Hueco
contiguos = record { base_global = 8; tamanio = 8 } ∷ record { base_global = 0; tamanio = 8 } ∷ []

contiguos-EnRango : All HuecoEnRango contiguos
contiguos-EnRango = (omega arith, (omega arith, tt))

fusionar_huecos-libre_example :
    ((x : ℕ) → libre x (fusionar_huecos contiguos) ≡ libre x contiguos)
    × All HuecoEnRango (fusionar_huecos contiguos)
fusionar_huecos-libre_example = fusionar_huecos-libre contiguos contiguos-EnRango

fusionados :
    (get_elem? (fusionar_huecos huecos) 0 ≡ some (record { base_global = 0; tamanio = 8 }))
    × (get_elem? (fusionar_huecos huecos) 1 ≡ some (record { base_global = 16; tamanio = 48 }))
unfolding fusionar_huecos fusionar_rondas buscar_fusion buscar_contiguo
fusionados = (refl, refl)

fusionar_huecos-fin_example : u32 (0 + 8) ≢ 16
fusionar_huecos-fin_example =
    fusionar_huecos-fin huecos 0 1 (record { base_global = 0; tamanio = 8 })
      (record { base_global = 16; tamanio = 48 }) fusionados.0 fusionados.1 (omega arith)

seleccionar_hueco-Elegido_example :
    ((strcmp (codes "WORST") (codes "WORST") ≡ true)
      → Elegido MayorIgual 5 huecos (seleccionar_hueco (codes "WORST") 5 huecos))
    × ((strcmp (codes "WORST") (codes "WORST") ≡ false)
        → Elegido MenorIgual 5 huecos (seleccionar_hueco (codes "WORST") 5 huecos))
seleccionar_hueco-Elegido_example = seleccionar_hueco-Elegido (codes "WORST") 5 huecos

abbrev con_memoria : EstadoMemoria
con_memoria = record {
  memory_sticks = un_stick ∷ [];
  huecos = record { base_global = 0; tamanio = 64 } ∷ [];
  next_ms_id = 1;
}

abbrev identificacion : List ℕ
identificacion = 0 ∷ 0 ∷ 0 ∷ 64 ∷ 0 ∷ 0 ∷ 35 ∷ 40 ∷ []

identificada : leer_identificacion identificacion ≡ some (64, 9000)
unfolding leer_identificacion ntohl
identificada = refl

conecta :
    identificar_memory_stick inicial.memoria 10 (some 1) identificacion ≡ some (con_memoria, 0)
unfolding identificar_memory_stick leer_identificacion ntohl nuevo_stick memoria_total
    fusionar_huecos fusionar_rondas buscar_fusion buscar_contiguo agregar_hueco
conecta = refl

abbrev un_proceso : EstadoKm
un_proceso = (pedido_crear_proceso (record inicial { memoria = con_memoria }) 1).0

-- A stick, a process and a segment of 12 bytes.
llega : Alcanzable config (pedido_crear_segmento config un_proceso 1 0 12).0
llega =
    Alcanzable.sigue un_proceso (pedido_crear_segmento config un_proceso 1 0 12).0
      (Alcanzable.sigue (record inicial { memoria = con_memoria }) un_proceso
        (Alcanzable.sigue inicial (record inicial { memoria = con_memoria }) Alcanzable.inicio
          (Paso.identificar inicial 10 (some 1) identificacion 64 9000 0 con_memoria identificada
            (omega arith) conecta))
        (Paso.crear_proceso (record inicial { memoria = con_memoria }) 1))
      (Paso.crear_segmento un_proceso 1 0 12)

alcanzable-Particionada_example :
    (fin : ℕ) × Particionada (pedido_crear_segmento config un_proceso 1 0 12).0 fin
alcanzable-Particionada_example =
    alcanzable-Particionada config (pedido_crear_segmento config un_proceso 1 0 12).0 llega
