-- ===== src/Ensayos/Cpu.antt =====
-- Tests of the CPU: cpu/src.
use ssoo.Common.{
  ℕ, ◌≡◌, ◌≤◌, ◌<◌, ◌+◌, ◌/◌, ◌%◌, ◌^◌, refl, some, List, [], ◌∷◌, ◌++◌, true, false, Texto, codes,
  strcmp, pos, length, arith,
}
use ssoo.Utils.Contexto.{RegistrosCpu, RegistrosEnRango, ContextoCpu, EntradaSegmento}
use ssoo.Km.Huecos.Cobertura.{cubre}
use ssoo.Km.Segmentos.{buscar_segmento, traducir_direccion}
use ssoo.Cpu.Mmu.{TraduccionMmu, mmu_ok, buscar_en, traducir_direccion_logica}
use ssoo.Cpu.Mmu.Proteccion.{
  fisica_o_maximo, traducir_direccion-logica, traducir_direccion_logica-Protege,
}
use ssoo.Cpu.Registros.{leer_valor_registro_cpu, tamanio_registro_cpu, escribir_valor_registro_cpu}
use ssoo.Cpu.Registros.Nombres.{map_option}
use ssoo.Cpu.Registros.Acceso.{escribir_valor-leer_valor}
use ssoo.Cpu.Decode.{OpcodeCpu, InstruccionDecodificada, decode_instruccion, opcode_cpu_to_string}
use ssoo.Cpu.Decode.Nombres.{
  Parametro, ParametroBien, Delimitadores, SinDelimitadores, decode_instruccion-escritos, escritos,
  textos,
}
use ssoo.Cpu.Execute.{cpu_exec_ok, ejecutar_instruccion}
use ssoo.Cpu.Execute.Semantica.{Asigna, Escrito, ejecutar_instruccion-Escrito}
use ssoo.Cpu.Execute.Seguridad.{Segura, ejecutar_instruccion-Segura}
use ssoo.Cpu.Execute.Inversa.{ejecutar_sub-ejecutar_sum}

abbrev r : RegistrosCpu
r = record {
  pc = 5;
  ax = 200;
  bx = 100;
  cx = 0;
  dx = 0;
  eax = 0;
  ebx = 0;
  ecx = 0;
  edx = 0;
  si = 0;
  di = 0;
}

r-EnRango : RegistrosEnRango r
r-EnRango = omega arith

abbrev un_segmento : EntradaSegmento
un_segmento = record { id_segmento = 2; id_memory_stick = 1; base = 700; limite = 16 }

abbrev ctx : ContextoCpu
ctx = record { pid = 7; registros = r; segmentos = un_segmento ∷ [] }

traducir_direccion-logica_example :
    traducir_direccion (pos 32) ctx 70 4
    ≡ fisica_o_maximo (traducir_direccion_logica 32 (some ctx) 70 4)
traducir_direccion-logica_example =
    traducir_direccion-logica 32 ctx 70 4 (omega arith, tt) (omega arith) (omega arith)

abbrev traducida : TraduccionMmu
traducida = record {
  id_segmento = 2;
  desplazamiento = 6;
  id_memory_stick = 1;
  direccion_fisica = 706;
  limite_segmento = 16;
}

traduce : traducir_direccion_logica 32 (some ctx) 70 4 ≡ mmu_ok traducida
unfolding traducir_direccion_logica buscar_en
traduce = refl

traducir_direccion_logica-Protege_example :
    (s : EntradaSegmento) × (buscar_segmento (70 / 32) (un_segmento ∷ []) ≡ some s)
    × (706 ≡ s.base + 70 % 32)
    × (1 ≡ s.id_memory_stick)
    × ((x : ℕ) → 706 ≤ x → x < 706 + 4 → cubre x s.base s.limite ≡ 1)
traducir_direccion_logica-Protege_example =
    traducir_direccion_logica-Protege 32 ctx 70 4 traducida (omega arith) (omega arith) traduce

escribe :
    escribir_valor_registro_cpu r (codes "AX") 300
    ≡ some (record {
      pc = 5;
      ax = 44;
      bx = 100;
      cx = 0;
      dx = 0;
      eax = 0;
      ebx = 0;
      ecx = 0;
      edx = 0;
      si = 0;
      di = 0;
    })
unfolding escribir_valor_registro_cpu tamanio_registro_cpu strcmp
escribe = refl

escribir_valor-leer_valor_example :
    RegistrosEnRango (record r { ax = 44 })
    × (strcmp (codes "AX") (codes "BX") ≡ true
        → leer_valor_registro_cpu (record r { ax = 44 }) (codes "BX")
          ≡ map_option (λ n. 300 % (256 ^ n)) (tamanio_registro_cpu (codes "BX")))
    × (strcmp (codes "AX") (codes "BX") ≡ false
        → leer_valor_registro_cpu (record r { ax = 44 }) (codes "BX")
          ≡ leer_valor_registro_cpu r (codes "BX"))
escribir_valor-leer_valor_example =
    escribir_valor-leer_valor r (codes "AX") (codes "BX") 300 (record r { ax = 44 }) r-EnRango
      (omega arith) escribe

lee-ax : leer_valor_registro_cpu r (codes "AX") ≡ some 200
unfolding leer_valor_registro_cpu strcmp
lee-ax = refl

lee-bx : leer_valor_registro_cpu r (codes "BX") ≡ some 100
unfolding leer_valor_registro_cpu strcmp
lee-bx = refl

tamanio-ax : tamanio_registro_cpu (codes "AX") ≡ some 1
unfolding tamanio_registro_cpu strcmp
tamanio-ax = refl

ax-bx : strcmp (codes "AX") (codes "BX") ≡ false
unfolding strcmp
ax-bx = refl

ax-pc : strcmp (codes "AX") (codes "PC") ≡ false
unfolding strcmp
ax-pc = refl

bx-pc : strcmp (codes "BX") (codes "PC") ≡ false
unfolding strcmp
bx-pc = refl

abbrev suma : InstruccionDecodificada
suma = record { opcode = OpcodeCpu.cpu_inst_sum; parametros = codes "AX" ∷ codes "BX" ∷ [] }

abbrev resta : InstruccionDecodificada
resta = record { opcode = OpcodeCpu.cpu_inst_sub; parametros = codes "AX" ∷ codes "BX" ∷ [] }

-- 200 + 100 does not fit AX.
ejecutar_instruccion-Escrito_example :
    (r' : RegistrosCpu) × (ejecutar_instruccion suma r ≡ (cpu_exec_ok, r'))
    × Escrito r (codes "AX") 1 300 r'
ejecutar_instruccion-Escrito_example =
    ejecutar_instruccion-Escrito suma r (codes "AX") 1 300 r-EnRango
      (Asigna.sum (codes "AX") (codes "BX") 200 100 lee-ax lee-bx) tamanio-ax

ejecutar_instruccion-Segura_example : Segura r (ejecutar_instruccion suma r)
ejecutar_instruccion-Segura_example = ejecutar_instruccion-Segura suma r r-EnRango

ejecutar_sub-ejecutar_sum_example :
    (r1 : RegistrosCpu) × (r2 : RegistrosCpu) × (ejecutar_instruccion suma r ≡ (cpu_exec_ok, r1))
    × (ejecutar_instruccion resta r1 ≡ (cpu_exec_ok, r2))
    × (leer_valor_registro_cpu r2 (codes "AX") ≡ some 200)
    × ((c : Texto)
        → strcmp (codes "AX") c ≡ false
        → strcmp (codes "PC") c ≡ false
        → leer_valor_registro_cpu r2 c ≡ leer_valor_registro_cpu r c)
ejecutar_sub-ejecutar_sum_example =
    ejecutar_sub-ejecutar_sum r (codes "AX") (codes "BX") 200 100 1 r-EnRango lee-ax lee-bx
      tamanio-ax ax-bx ax-pc bx-pc

abbrev parametros : List Parametro
parametros =
    record { separacion = codes " "; texto = codes "AX" }
    ∷ record { separacion = codes "  "; texto = codes "41" }
    ∷ []

parametros-Bien : ParametroBien (record { separacion = codes " "; texto = codes "AX" })
unfolding Delimitadores SinDelimitadores
parametros-Bien = record {
  separa = (refl, tt);
  separado = cc;
  sin_delimitadores = (refl, (refl, tt));
  no_vacio = cc;
  corto = omega arith;
}

parametros-Bien_2 : ParametroBien (record { separacion = codes "  "; texto = codes "41" })
unfolding Delimitadores SinDelimitadores
parametros-Bien_2 = record {
  separa = (refl, (refl, tt));
  separado = cc;
  sin_delimitadores = (refl, (refl, tt));
  no_vacio = cc;
  corto = omega arith;
}

fin_de_linea : Delimitadores (codes "\n")
unfolding Delimitadores
fin_de_linea = (refl, tt)

nada : Delimitadores []
unfolding Delimitadores
nada = tt

largo :
    length ([] ++ (opcode_cpu_to_string OpcodeCpu.cpu_inst_set ++ escritos parametros (codes "\n")))
    ≤ 255
unfolding opcode_cpu_to_string escritos
largo = omega arith

decode_instruccion-escritos_example :
    decode_instruccion (
      some
        ([] ++ (opcode_cpu_to_string OpcodeCpu.cpu_inst_set ++ escritos parametros (codes "\n"))))
    ≡ record { opcode = OpcodeCpu.cpu_inst_set; parametros = textos parametros }
decode_instruccion-escritos_example =
    decode_instruccion-escritos OpcodeCpu.cpu_inst_set parametros [] (codes "\n") (omega arith)
      (parametros-Bien, (parametros-Bien_2, tt)) nada fin_de_linea largo
