-- ===== src/Ensayos/Accesos.antt =====
-- Tests of the memory instructions of the CPU: cpu/src/cpu_memoria.c, cpu/src/cpu_memory_sticks.c.
use ssoo.Common.{
  ◌≡◌, refl, some, List, [], ◌∷◌, take, slice, splice, true, false, ◌==◌, if◌then◌else◌, pos, Texto,
  codes, strcmp, arith,
}
use ssoo.Utils.Contexto.{RegistrosCpu, RegistrosEnRango, ContextoCpu, EntradaSegmento}
use ssoo.Km.Sticks.{MemoryStick}
use ssoo.Km.Fisica.{Red}
use ssoo.Km.Fisica.Plana.{plana}
use ssoo.Km.Endpoints.{solicitar_stick}
use ssoo.Km.Endpoints.Busqueda.{stick_por_id}
use ssoo.Cpu.Mmu.{TraduccionMmu, buscar_en, traducir_direccion_logica}
use ssoo.Cpu.Registros.{leer_valor_registro_cpu, tamanio_registro_cpu}
use ssoo.Cpu.Decode.{OpcodeCpu}
use ssoo.Cpu.MemorySticks.Tabla.{RegistroSticks}
use ssoo.Cpu.MemorySticks.Conexion.{Entorno}
use ssoo.Cpu.MemorySticks.Fidelidad.{Publicada, RegistroFiel}
use ssoo.Cpu.Memoria.{
  cpu_memoria_ok, valor_a_bytes, traducida, traducir_o_fallar, memoria_read_fragmentada,
  memoria_write_fragmentada,
}
use ssoo.Cpu.Memoria.Acceso.{Mundo}
use ssoo.Cpu.Memoria.Lectura.{memoria_read_fragmentada-slice}
use ssoo.Cpu.Memoria.Escritura.{memoria_write_fragmentada-splice}
use ssoo.Cpu.Memoria.Instrucciones.{EstadoCpu, ejecutar_instruccion_memoria}
use ssoo.Cpu.Memoria.Semantica.{Sana}
use ssoo.Cpu.Memoria.IdaVuelta.{ejecutar_mov_in-ejecutar_mov_out}
use ssoo.Cpu.Memoria.Aislamiento.{Aislada, ejecutar_instruccion_memoria-Aislada}

abbrev stick_a : MemoryStick
stick_a = record {
  id = 0;
  fd = 10;
  tamanio = 3;
  offset_global = 0;
  ipv4 = 1;
  puerto = 9000;
  activo = true;
}

abbrev stick_b : MemoryStick
stick_b = record {
  id = 1;
  fd = 11;
  tamanio = 2;
  offset_global = 3;
  ipv4 = 1;
  puerto = 9001;
  activo = true;
}

abbrev sticks : List MemoryStick
sticks = stick_a ∷ stick_b ∷ []

abbrev red : Red
red fd =
    if fd == 10
    then record { buffer = 1 ∷ 2 ∷ 3 ∷ []; offset_global_ms = 0 }
    else record { buffer = 4 ∷ 5 ∷ []; offset_global_ms = 3 }

abbrev env : Entorno
env = record {
  responde_km = solicitar_stick sticks;
  conectar_a_servidor = λ ipv4 puerto. if puerto == 9000 then pos 20 else pos 21;
  destino = λ c. if c == 20 then some 10 else some 11;
}

env-Publicada : Publicada env sticks 5
env-Publicada = record {
  contiguos = (refl, omega arith, (refl, omega arith, refl));
  activos = (refl, (refl, tt));
  fin_cabe = omega arith;
  distintos = ((ground arith, tt), (tt, tt));
  conexiones = (
    record {
      id_cabe = omega arith;
      ipv4_cabe = omega arith;
      puerto_pos = omega arith;
      puerto_cabe = omega arith;
      fd = 20;
      conecta = refl;
      lleva = refl;
    },
    (
      record {
        id_cabe = omega arith;
        ipv4_cabe = omega arith;
        puerto_pos = omega arith;
        puerto_cabe = omega arith;
        fd = 21;
        conecta = refl;
        lleva = refl;
      },
      tt,
    ),
  );
  responde = λ m. refl;
}

mundo : Mundo env red sticks 5
mundo = record {
  publicada = env-Publicada;
  memoria = record {
    contiguos = (refl, omega arith, (refl, omega arith, refl));
    activos = (refl, (refl, tt));
    cableado = (refl, ((omega arith), tt), (refl, tt, tt));
    fin_cabe = omega arith;
  };
  ubicados = (refl, (refl, tt));
}

abbrev tabla : RegistroSticks
tabla = record { socket_kernel_memory = pos 3; cpu_id = 1; sticks = [] }

tabla-Fiel : RegistroFiel env sticks tabla
tabla-Fiel = record { km = 3; con_km = refl; tope = omega arith; entradas = λ i e h. absurd (cc) }

primer_stick : stick_por_id 0 sticks ≡ some stick_a
unfolding stick_por_id
primer_stick = refl

-- Bytes 1 to 4, over both sticks.
memoria_read_fragmentada-slice_example :
    let o = memoria_read_fragmentada env red tabla 0 1 4 in
    (o.1 ≡ some (slice 1 4 (plana red sticks))) × RegistroFiel env sticks o.0
memoria_read_fragmentada-slice_example =
    memoria_read_fragmentada-slice env red sticks 5 tabla 0 1 4 stick_a mundo tabla-Fiel
      primer_stick (omega arith) (omega arith)

memoria_write_fragmentada-splice_example :
    let o = memoria_write_fragmentada env red tabla 0 2 (8 ∷ 9 ∷ []) in
    (o.1 ≡ true)
    × (plana o.0.0 sticks ≡ splice 2 (8 ∷ 9 ∷ []) (plana red sticks))
    × Mundo env o.0.0 sticks 5
    × RegistroFiel env sticks o.0.1
memoria_write_fragmentada-splice_example =
    memoria_write_fragmentada-splice env red sticks 5 tabla 0 2 (8 ∷ 9 ∷ []) stick_a mundo
      tabla-Fiel primer_stick (omega arith) (omega arith) (omega arith)

abbrev r : RegistrosCpu
r = record {
  pc = 5;
  ax = 200;
  bx = 100;
  cx = 0;
  dx = 0;
  eax = 287454020;
  ebx = 0;
  ecx = 0;
  edx = 0;
  si = 32;
  di = 32;
}

r-EnRango : RegistrosEnRango r
r-EnRango = omega arith

-- Segment 2 has the bytes 1 to 4, and pages of 16 bytes at most.
abbrev segmento : EntradaSegmento
segmento = record { id_segmento = 2; id_memory_stick = 0; base = 1; limite = 4 }

abbrev ctx : ContextoCpu
ctx = record { pid = 7; registros = r; segmentos = segmento ∷ [] }

abbrev cpu : EstadoCpu
cpu = record { registros = r; memory_sticks = tabla; red = red }

cpu-Sana : Sana env sticks 5 ctx cpu
cpu-Sana = record {
  mundo = mundo;
  fiel = tabla-Fiel;
  servidos = (record { ms = stick_a; por_id = primer_stick; dentro = omega arith }, tt);
  fin_chico = omega arith;
}

abbrev acceso : TraduccionMmu
acceso = record {
  id_segmento = 2;
  desplazamiento = 0;
  id_memory_stick = 0;
  direccion_fisica = 1;
  limite_segmento = 4;
}

concedido : traducir_o_fallar 16 ctx 32 4 ≡ traducida acceso
unfolding traducir_o_fallar traducir_direccion_logica buscar_en
concedido = refl

cuatro_eax : tamanio_registro_cpu (codes "EAX") ≡ some 4
unfolding tamanio_registro_cpu strcmp
cuatro_eax = refl

cuatro_ebx : tamanio_registro_cpu (codes "EBX") ≡ some 4
unfolding tamanio_registro_cpu strcmp
cuatro_ebx = refl

valor_eax : leer_valor_registro_cpu r (codes "EAX") ≡ some 287454020
unfolding leer_valor_registro_cpu strcmp
valor_eax = refl

ejecutar_mov_in-ejecutar_mov_out_example :
    (e1 : EstadoCpu) × (e2 : EstadoCpu) × (ejecutar_instruccion_memoria 16 env
        (record { opcode = OpcodeCpu.cpu_inst_mov_out; parametros = codes "EAX" ∷ [] })
        ctx
        cpu
      ≡ (cpu_memoria_ok, e1))
    × (ejecutar_instruccion_memoria 16 env
          (record { opcode = OpcodeCpu.cpu_inst_mov_in; parametros = codes "EBX" ∷ [] })
          ctx
          e1
        ≡ (cpu_memoria_ok, e2))
    × (leer_valor_registro_cpu e2.registros (codes "EBX") ≡ some 287454020)
    × ((c : Texto)
        → strcmp (codes "EBX") c ≡ false
        → strcmp (codes "PC") c ≡ false
        → leer_valor_registro_cpu e2.registros c ≡ leer_valor_registro_cpu r c)
    × (plana e2.red sticks ≡ splice 1 (take 4 (valor_a_bytes 287454020 4)) (plana red sticks))
ejecutar_mov_in-ejecutar_mov_out_example =
    ejecutar_mov_in-ejecutar_mov_out 16 env sticks 5 ctx cpu (codes "EAX") (codes "EBX") 4 287454020
      acceso cpu-Sana r-EnRango cuatro_eax cuatro_ebx valor_eax refl concedido

ejecutar_instruccion_memoria-Aislada_example : Aislada env sticks 5 ctx cpu (
    ejecutar_instruccion_memoria 16 env
      (record { opcode = OpcodeCpu.cpu_inst_mov_out; parametros = codes "EAX" ∷ [] })
      ctx
      cpu)
ejecutar_instruccion_memoria-Aislada_example =
    ejecutar_instruccion_memoria-Aislada 16 env sticks 5 ctx cpu
      (record { opcode = OpcodeCpu.cpu_inst_mov_out; parametros = codes "EAX" ∷ [] }) cpu-Sana
      r-EnRango
