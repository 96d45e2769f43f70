-- ===== src/Ensayos/Memoria.antt =====
-- Tests of the sticks and of the physical memory: memory_stick/src/main.c, kernel_memory/src/main.c.
use ssoo.Common.{
  ◌≡◌, ◌<◌, ◌≤◌, ◌+◌, ◌-◌, refl, some, List, [], ◌∷◌, slice, splice, true, ◌==◌, if◌then◌else◌,
  arith, ntohl,
}
use ssoo.Utils.Protocolo.{msg_ok, msg_memory_write, msg_leer_memoria, msg_leer_memoria_resp}
use ssoo.MemoryStick.{EstadoStick, respuesta, atender_kernel_memory, atender_cpu}
use ssoo.MemoryStick.Pedidos.{pedido}
use ssoo.MemoryStick.Caminos.{atender_cpu-atender_kernel_memory}
use ssoo.Km.Sticks.{MemoryStick, ms_para_direccion, nuevo_stick, memoria_total}
use ssoo.Km.Sticks.Rango.{ms_para_direccion-Contiguos}
use ssoo.Km.Alta.{EstadoMemoria, leer_identificacion, identificar_memory_stick}
use ssoo.Km.Alta.Particion.{MemoriaFormada, Sumado, identificar_memory_stick-Sumado}
use ssoo.Km.Huecos.{
  fusionar_huecos, fusionar_rondas, buscar_fusion, buscar_contiguo, agregar_hueco, unir,
  list_remove,
}
use ssoo.Km.Fisica.{Red, leer_fisico, escribir_fisico}
use ssoo.Km.Fisica.Plana.{plana, Memoria}
use ssoo.Km.Fisica.Lectura.{leer_fisico-slice}
use ssoo.Km.Fisica.Escritura.{escribir_fisico-splice}

abbrev un_stick : EstadoStick
un_stick = record { buffer = 1 ∷ 2 ∷ 3 ∷ 4 ∷ []; offset_global_ms = 100 }

atender_cpu-atender_kernel_memory_example :
    (e' : EstadoStick) × (atender_kernel_memory un_stick
        (respuesta msg_memory_write (pedido 1 2 (8 ∷ 9 ∷ [])))
      ≡ (e', respuesta msg_ok []))
    × (atender_cpu e' (respuesta msg_leer_memoria (pedido 101 2 []))
        ≡ (e', respuesta msg_leer_memoria_resp (8 ∷ 9 ∷ [])))
    × (e'.buffer ≡ splice 1 (8 ∷ 9 ∷ []) (1 ∷ 2 ∷ 3 ∷ 4 ∷ []))
atender_cpu-atender_kernel_memory_example =
    atender_cpu-atender_kernel_memory un_stick 1 (8 ∷ 9 ∷ []) (omega arith) (omega arith)
      (omega arith) (omega arith)

abbrev stick_a : MemoryStick
stick_a = record {
  id = 0;
  fd = 10;
  tamanio = 3;
  offset_global = 0;
  ipv4 = 1;
  puerto = 9000;
  activo = true;
}

abbrev stick_b : MemoryStick
stick_b = record {
  id = 1;
  fd = 11;
  tamanio = 2;
  offset_global = 3;
  ipv4 = 1;
  puerto = 9001;
  activo = true;
}

abbrev dos_sticks : List MemoryStick
dos_sticks = stick_a ∷ stick_b ∷ []

ms_para_direccion-Contiguos_example :
    (ms : MemoryStick) × (ms_para_direccion 4 dos_sticks ≡ some (ms, 4 - ms.offset_global))
    × (ms.offset_global ≤ 4)
    × (4 < ms.offset_global + ms.tamanio)
ms_para_direccion-Contiguos_example =
    ms_para_direccion-Contiguos 0 dos_sticks 5 4 (refl, omega arith, (refl, omega arith, refl))
      (refl, (refl, tt)) (omega arith) (omega arith)

abbrev red : Red
red fd =
    if fd == 10
    then record { buffer = 1 ∷ 2 ∷ 3 ∷ []; offset_global_ms = 0 }
    else record { buffer = 4 ∷ 5 ∷ []; offset_global_ms = 3 }

red-Memoria : Memoria red dos_sticks 5
red-Memoria = record {
  contiguos = (refl, omega arith, (refl, omega arith, refl));
  activos = (refl, (refl, tt));
  cableado = (refl, ((omega arith), tt), (refl, tt, tt));
  fin_cabe = omega arith;
}

leer_fisico-slice_example : leer_fisico red dos_sticks 1 3 ≡ some (slice 1 3 (plana red dos_sticks))
leer_fisico-slice_example =
    leer_fisico-slice red dos_sticks 5 1 3 red-Memoria (omega arith) (omega arith)

escribir_fisico-splice_example :
    let r = escribir_fisico red dos_sticks 2 (8 ∷ 9 ∷ []) in
    (r.1 ≡ true)
    × (plana r.0 dos_sticks ≡ splice 2 (8 ∷ 9 ∷ []) (plana red dos_sticks))
    × Memoria r.0 dos_sticks 5
escribir_fisico-splice_example =
    escribir_fisico-splice red dos_sticks 5 2 (8 ∷ 9 ∷ []) red-Memoria (omega arith) (omega arith)
      (omega arith)

abbrev memoria : EstadoMemoria
memoria = record {
  memory_sticks = dos_sticks;
  huecos = record { base_global = 2; tamanio = 3 } ∷ [];
  next_ms_id = 2;
}

memoria-Formada : MemoriaFormada memoria 5
memoria-Formada = record {
  contiguos = (refl, omega arith, (refl, omega arith, refl));
  fin_cabe = omega arith;
  huecos_en_rango = (omega arith, tt);
}

abbrev sumada : EstadoMemoria
sumada = record {
  memory_sticks =
      stick_a
      ∷ stick_b
      ∷ record {
        id = 2;
        fd = 12;
        tamanio = 7;
        offset_global = 5;
        ipv4 = 1;
        puerto = 9002;
        activo = true;
      }
      ∷ [];
  huecos = record { base_global = 2; tamanio = 10 } ∷ [];
  next_ms_id = 3;
}

identificada : leer_identificacion (0 ∷ 0 ∷ 0 ∷ 7 ∷ 0 ∷ 0 ∷ 35 ∷ 42 ∷ []) ≡ some (7, 9002)
unfolding leer_identificacion ntohl
identificada = refl

sumar :
    identificar_memory_stick memoria 12 (some 1) (0 ∷ 0 ∷ 0 ∷ 7 ∷ 0 ∷ 0 ∷ 35 ∷ 42 ∷ [])
    ≡ some (sumada, 5)
unfolding identificar_memory_stick leer_identificacion ntohl nuevo_stick memoria_total
    fusionar_huecos fusionar_rondas buscar_fusion buscar_contiguo agregar_hueco unir list_remove
sumar = refl

identificar_memory_stick-Sumado_example : Sumado memoria 5 7 (sumada, 5)
identificar_memory_stick-Sumado_example =
    identificar_memory_stick-Sumado memoria 5 12 (some 1) (0 ∷ 0 ∷ 0 ∷ 7 ∷ 0 ∷ 0 ∷ 35 ∷ 42 ∷ []) 7
      9002 (sumada, 5) memoria-Formada identificada (omega arith) sumar
