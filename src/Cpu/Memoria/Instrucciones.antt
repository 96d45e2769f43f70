-- ===== src/Cpu/Memoria/Instrucciones.antt =====
-- The instructions that use memory: cpu/src/cpu_memoria.c. Every handler returns its result and the
-- state as it is when it returns.
use ssoo.Common.{
  ℕ, Option, none, some, List, [], ◌∷◌, take, ◌==◌, if◌then◌else◌, Texto, true, false,
}
use ssoo.Utils.Contexto.{RegistrosCpu, ContextoCpu}
use ssoo.Km.Fisica.{Red}
use ssoo.Cpu.Mmu.{TraduccionMmu}
use ssoo.Cpu.Registros.{leer_valor_registro_cpu, tamanio_registro_cpu, escribir_valor_registro_cpu}
use ssoo.Cpu.Decode.{cpu_inst_mov_in, cpu_inst_mov_out, cpu_inst_copy_mem, InstruccionDecodificada}
use ssoo.Cpu.Execute.{avanzar_pc, avanzar_pc_si_corresponde}
use ssoo.Cpu.MemorySticks.Tabla.{RegistroSticks}
use ssoo.Cpu.MemorySticks.Conexion.{Entorno}
use ssoo.Cpu.Memoria.{
  ResultadoMemoriaCpu, cpu_memoria_ok, cpu_memoria_error, valor_a_bytes, bytes_a_valor, Traducida,
  traducida, rechazada, traducir_o_fallar, Escritura, memoria_read_fragmentada,
  memoria_write_fragmentada,
}

-- What an instruction may change: the registers, the table of sticks and the sticks themselves.
pub record EstadoCpu : Type 0 where
  pub registros : RegistrosCpu
  pub memory_sticks : RegistroSticks
  pub red : Red

abbrev pub Salida : Type 0
Salida = ResultadoMemoriaCpu × EstadoCpu

-- The only parameter of an instruction that takes exactly one.
unfoldable pub un_parametro : List Texto → Option Texto
un_parametro [] = none
un_parametro (a ∷ []) = some a
un_parametro (a ∷ b ∷ ps) = none

abbrev pub avanzado : EstadoCpu → EstadoCpu
avanzado e = record e { registros = avanzar_pc e.registros }

-- MOV_IN after the read.
abbrev pub cargado : EstadoCpu → Texto → Option RegistrosCpu → Salida
cargado e nombre none = (cpu_memoria_error, e)
cargado e nombre (some registros) =
    (cpu_memoria_ok, record e { registros = avanzar_pc_si_corresponde registros nombre })

abbrev pub cargar : EstadoCpu → Texto → ℕ → RegistroSticks × Option (List ℕ) → Salida
cargar e nombre tamanio (r, none) = (cpu_memoria_error, record e { memory_sticks = r })
cargar e nombre tamanio (r, some buffer) =
    cargado (record e { memory_sticks = r }) nombre
      (escribir_valor_registro_cpu e.registros nombre (bytes_a_valor buffer tamanio))

abbrev pub mov_in_en : Entorno → EstadoCpu → Texto → ℕ → Traducida → Salida
mov_in_en env e nombre tamanio (rechazada resultado) = (resultado, e)
mov_in_en env e nombre tamanio (traducida t) = cargar e nombre tamanio (
    memoria_read_fragmentada env e.red e.memory_sticks t.id_memory_stick t.direccion_fisica tamanio)

abbrev pub mov_in_con : ℕ → Entorno → ContextoCpu → EstadoCpu → Texto → Option ℕ → Salida
mov_in_con tamanio_max env contexto e nombre none = (cpu_memoria_error, e)
mov_in_con tamanio_max env contexto e nombre (some tamanio) =
    mov_in_en env e nombre tamanio (traducir_o_fallar tamanio_max contexto e.registros.si tamanio)

abbrev pub mov_in_de : ℕ → Entorno → ContextoCpu → EstadoCpu → Option Texto → Salida
mov_in_de tamanio_max env contexto e none = (cpu_memoria_error, e)
mov_in_de tamanio_max env contexto e (some nombre) =
    mov_in_con tamanio_max env contexto e nombre (tamanio_registro_cpu nombre)

unfoldable pub ejecutar_mov_in :
    ℕ → Entorno → InstruccionDecodificada → ContextoCpu → EstadoCpu → Salida
ejecutar_mov_in tamanio_max env instruccion contexto e =
    mov_in_de tamanio_max env contexto e (un_parametro instruccion.parametros)

-- The end of MOV_OUT and COPY_MEM, after the write.
abbrev pub escrita : EstadoCpu → Escritura → Salida
escrita e ((red, r), true) = (cpu_memoria_ok, avanzado (record e { memory_sticks = r; red = red }))
escrita e ((red, r), false) = (cpu_memoria_error, record e { memory_sticks = r; red = red })

abbrev pub mov_out_en : Entorno → EstadoCpu → ℕ → ℕ → Traducida → Salida
mov_out_en env e valor tamanio (rechazada resultado) = (resultado, e)
mov_out_en env e valor tamanio (traducida t) = escrita e (
    memoria_write_fragmentada env e.red e.memory_sticks t.id_memory_stick t.direccion_fisica
      (take tamanio (valor_a_bytes valor tamanio)))

abbrev pub mov_out_con : ℕ → Entorno → ContextoCpu → EstadoCpu → Option ℕ → Option ℕ → Salida
mov_out_con tamanio_max env contexto e none valor = (cpu_memoria_error, e)
mov_out_con tamanio_max env contexto e (some tamanio) none = (cpu_memoria_error, e)
mov_out_con tamanio_max env contexto e (some tamanio) (some valor) =
    mov_out_en env e valor tamanio (traducir_o_fallar tamanio_max contexto e.registros.di tamanio)

abbrev pub mov_out_de : ℕ → Entorno → ContextoCpu → EstadoCpu → Option Texto → Salida
mov_out_de tamanio_max env contexto e none = (cpu_memoria_error, e)
mov_out_de tamanio_max env contexto e (some nombre) =
    mov_out_con tamanio_max env contexto e (tamanio_registro_cpu nombre)
      (leer_valor_registro_cpu e.registros nombre)

unfoldable pub ejecutar_mov_out :
    ℕ → Entorno → InstruccionDecodificada → ContextoCpu → EstadoCpu → Salida
ejecutar_mov_out tamanio_max env instruccion contexto e =
    mov_out_de tamanio_max env contexto e (un_parametro instruccion.parametros)

-- COPY_MEM after the read, whose bytes go to the destination.
abbrev pub copiar : Entorno → EstadoCpu → TraduccionMmu → RegistroSticks × Option (List ℕ) → Salida
copiar env e destino (r, none) = (cpu_memoria_error, record e { memory_sticks = r })
copiar env e destino (r, some buffer) =
    escrita e (
      memoria_write_fragmentada env e.red r destino.id_memory_stick destino.direccion_fisica buffer)

abbrev pub copy_mem_en : Entorno → EstadoCpu → ℕ → Traducida → Traducida → Salida
copy_mem_en env e tamanio (rechazada resultado) destino = (resultado, e)
copy_mem_en env e tamanio (traducida origen) (rechazada resultado) = (resultado, e)
copy_mem_en env e tamanio (traducida origen) (traducida destino) = copiar env e destino (
    memoria_read_fragmentada env e.red e.memory_sticks origen.id_memory_stick
      origen.direccion_fisica tamanio)

abbrev pub copy_mem_con : ℕ → Entorno → ContextoCpu → EstadoCpu → Option ℕ → Salida
copy_mem_con tamanio_max env contexto e none = (cpu_memoria_error, e)
copy_mem_con tamanio_max env contexto e (some tamanio) =
    if tamanio == 0
    then (cpu_memoria_error, e)
    else copy_mem_en env e tamanio (traducir_o_fallar tamanio_max contexto e.registros.si tamanio)
        (traducir_o_fallar tamanio_max contexto e.registros.di tamanio)

abbrev pub copy_mem_de : ℕ → Entorno → ContextoCpu → EstadoCpu → Option Texto → Salida
copy_mem_de tamanio_max env contexto e none = (cpu_memoria_error, e)
copy_mem_de tamanio_max env contexto e (some nombre) =
    copy_mem_con tamanio_max env contexto e (leer_valor_registro_cpu e.registros nombre)

unfoldable pub ejecutar_copy_mem :
    ℕ → Entorno → InstruccionDecodificada → ContextoCpu → EstadoCpu → Salida
ejecutar_copy_mem tamanio_max env instruccion contexto e =
    copy_mem_de tamanio_max env contexto e (un_parametro instruccion.parametros)

unfoldable pub ejecutar_instruccion_memoria :
    ℕ → Entorno → InstruccionDecodificada → ContextoCpu → EstadoCpu → Salida
ejecutar_instruccion_memoria tamanio_max env instruccion contexto e = elim instruccion.opcode [
  | cpu_inst_mov_in ↦ ejecutar_mov_in tamanio_max env instruccion contexto e
  | cpu_inst_mov_out ↦ ejecutar_mov_out tamanio_max env instruccion contexto e
  | cpu_inst_copy_mem ↦ ejecutar_copy_mem tamanio_max env instruccion contexto e
  | _ ↦ (cpu_memoria_error, e)
]
