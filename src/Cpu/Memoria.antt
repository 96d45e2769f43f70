-- ===== src/Cpu/Memoria.antt =====
-- MOV_IN, MOV_OUT and COPY_MEM: cpu/src/cpu_memoria.h and cpu_memoria.c. A connection leads to a
-- stick of `Red`, which answers each request; pointers are never NULL, `malloc` never fails, and log
-- lines are left out.
pub mod Acceso
pub mod Tramos
pub mod Lectura
pub mod Escritura
pub mod Instrucciones
pub mod Permiso
pub mod Semantica
pub mod IdaVuelta
pub mod Aislamiento
use ssoo.Common.{
  ℕ, zero, suc, ◌+◌, ◌-◌, Option, none, some, List, [], ◌∷◌, ◌++◌, length, take, slice, replicate,
  leb, ltb, ◌==◌, ◌&&◌, ◌||◌, not, if◌then◌else◌, htonl, ntohl, u8, u32, uint32_max, Bool, true,
  false, ℤ, pos, negsuc, Texto, codes, strcmp,
}
use ssoo.Utils.Mensaje.{Mensaje}
use ssoo.Utils.Contexto.{RegistrosCpu, ContextoCpu}
use ssoo.Utils.Protocolo.{msg_ok, msg_memory_write, msg_memory_read, msg_memory_read_respuesta}
use ssoo.MemoryStick.{respuesta, atender_cpu}
use ssoo.Km.Fisica.{Red, actualizar, anteponer}
use ssoo.Cpu.Mmu.{
  TraduccionMmu, ResultadoMmu, mmu_ok, segmento_no_encontrado, segmentation_fault, mmu_error,
  traducir_direccion_logica,
}
use ssoo.Cpu.Registros.{leer_valor_registro_cpu, tamanio_registro_cpu, escribir_valor_registro_cpu}
use ssoo.Cpu.Decode.{
  OpcodeCpu, cpu_inst_mov_in, cpu_inst_mov_out, cpu_inst_copy_mem, InstruccionDecodificada,
}
use ssoo.Cpu.Execute.{avanzar_pc, avanzar_pc_si_corresponde}
use ssoo.Cpu.MemorySticks.Tabla.{RegistroSticks, abierto, cpu_memory_sticks_invalidar_socket}
use ssoo.Cpu.MemorySticks.Conexion.{Entorno}
use ssoo.Cpu.MemorySticks.Resolver.{
  StickResuelto, cpu_memory_sticks_resolver_id, cpu_memory_sticks_resolver_direccion,
}

pub data ResultadoMemoriaCpu : Type 0 where
  cpu_memoria_ok cpu_memoria_error cpu_memoria_seg_fault : ResultadoMemoriaCpu

-- The four bytes of the buffer after the conversion.
unfoldable pub valor_a_bytes : ℕ → ℕ → List ℕ
valor_a_bytes valor tamanio = if tamanio == 1 then u8 valor ∷ replicate 3 0 else htonl valor

abbrev pub primero : List ℕ → ℕ
primero [] = 0
primero (b ∷ bs) = b

abbrev pub palabra_de : Option (ℕ × List ℕ) → ℕ
palabra_de none = 0
palabra_de (some (n, resto)) = n

unfoldable pub bytes_a_valor : List ℕ → ℕ → ℕ
bytes_a_valor origen tamanio = if tamanio == 1 then primero origen else palabra_de (ntohl origen)

-- A message on a connection, and the answer; `none` is the NULL of `recibir_mensaje`.
abbrev pub preguntar_a : Red → Mensaje → Option ℕ → Red × Option Mensaje
preguntar_a red msg none = (red, none)
preguntar_a red msg (some stick) =
    let (e, resp) = atender_cpu (red stick) msg in (actualizar red stick e, some resp)

abbrev pub preguntar : Entorno → Red → ℤ → Mensaje → Red × Option Mensaje
preguntar env red (pos c) msg = preguntar_a red msg (env.destino c)
preguntar env red (negsuc n) msg = (red, none)

abbrev pub bytes_leidos : ℕ → Option Mensaje → Option (List ℕ)
bytes_leidos tamanio none = none
bytes_leidos tamanio (some resp) =
    if resp.op_code == msg_memory_read_respuesta && length resp.payload == tamanio
    then some resp.payload
    else none

-- `none` is false.
unfoldable pub memoria_read : Entorno → Red → ℤ → ℕ → ℕ → Option (List ℕ)
memoria_read env red socket direccion tamanio =
    if not (abierto socket) || tamanio == 0
    then none
    else bytes_leidos tamanio
        (preguntar env red socket
          (respuesta msg_memory_read (htonl direccion ++ (htonl tamanio ++ [])))).1

abbrev pub confirmada : Option Mensaje → Bool
confirmada none = false
confirmada (some resp) = resp.op_code == msg_ok

unfoldable pub memoria_write : Entorno → Red → ℤ → ℕ → List ℕ → Red × Bool
memoria_write env red socket direccion datos =
    let tamanio = length datos in
    let (red', resp) =
      preguntar env red socket
        (respuesta msg_memory_write (htonl direccion ++ (htonl tamanio ++ datos))) in
    if not (abierto socket) || (tamanio == 0 || ltb (uint32_max - 8) tamanio)
    then (red, false)
    else (red', confirmada resp)

-- The result of the MMU, with what it writes through the pointer.
pub data Traducida : Type 0 where
  traducida : TraduccionMmu → Traducida
  rechazada : ResultadoMemoriaCpu → Traducida

abbrev pub segun_mmu : ResultadoMmu → Traducida
segun_mmu (mmu_ok t) = traducida t
segun_mmu segmentation_fault = rechazada cpu_memoria_seg_fault
segun_mmu segmento_no_encontrado = rechazada cpu_memoria_seg_fault
segun_mmu mmu_error = rechazada cpu_memoria_error

unfoldable pub traducir_o_fallar : ℕ → ContextoCpu → ℕ → ℕ → Traducida
traducir_o_fallar tamanio_max contexto direccion_logica tamanio =
    segun_mmu (traducir_direccion_logica tamanio_max (some contexto) direccion_logica tamanio)

-- The stick does not hold the address, as far as its range is known.
abbrev pub fuera : StickResuelto → ℕ → Bool
fuera stick direccion =
    stick.rango_conocido
    && (ltb direccion stick.base_global || leb (stick.base_global + stick.tamanio) direccion)

-- The stick for an address: the one at hand, or another where that does not hold it.
unfoldable pub stick_para :
    Entorno → RegistroSticks → StickResuelto → ℕ → RegistroSticks × Option StickResuelto
stick_para env r stick direccion =
    if fuera stick direccion
    then cpu_memory_sticks_resolver_direccion env r direccion
    else (r, some stick)

abbrev pub con_inicio :
    Entorno → ℕ → RegistroSticks × Option StickResuelto → RegistroSticks × Option StickResuelto
con_inicio env direccion (r, none) = (r, none)
con_inicio env direccion (r, some stick) = stick_para env r stick direccion

unfoldable pub resolver_inicio :
    Entorno → RegistroSticks → ℕ → ℕ → RegistroSticks × Option StickResuelto
resolver_inicio env r id_memory_stick direccion =
    con_inicio env direccion (cpu_memory_sticks_resolver_id env r id_memory_stick)

unfoldable pub tamanio_fragmento : StickResuelto → ℕ → ℕ → ℕ
tamanio_fragmento stick direccion pendiente =
    let fin = stick.base_global + stick.tamanio in
    if not stick.rango_conocido
    then pendiente
    else if leb fin direccion
    then 0
    else if ltb (fin - direccion) pendiente
    then fin - direccion
    else pendiente

abbrev pub anteponer_leido :
    List ℕ → RegistroSticks × Option (List ℕ) → RegistroSticks × Option (List ℕ)
anteponer_leido chunk (r, resto) = (r, anteponer chunk resto)

abbrev pub tras_leer :
    RegistroSticks
    → StickResuelto
    → RegistroSticks × Option (List ℕ)
    → Option (List ℕ)
    → RegistroSticks × Option (List ℕ)
tras_leer r s resto none = (cpu_memory_sticks_invalidar_socket r s.id_memory_stick s.socket, none)
tras_leer r s resto (some chunk) = anteponer_leido chunk resto

-- A round with the stick that holds the address; `seguir` is the rest of the loop.
abbrev pub leer_de :
    Entorno
    → Red
    → ℕ
    → ℕ
    → (RegistroSticks → StickResuelto → ℕ → RegistroSticks × Option (List ℕ))
    → RegistroSticks × Option StickResuelto
    → RegistroSticks × Option (List ℕ)
leer_de env red actual pendiente seguir (r, none) = (r, none)
leer_de env red actual pendiente seguir (r, some s) =
    let fragmento = tamanio_fragmento s actual pendiente in
    tras_leer r s (seguir r s fragmento)
      (if fragmento == 0 then none else memoria_read env red s.socket actual fragmento)

-- The loop of `memoria_read_fragmentada` on fuel; the result is what is read from `procesado` on.
unfoldable pub leer_fragmentos :
    ℕ
    → Entorno
    → Red
    → RegistroSticks
    → StickResuelto
    → ℕ
    → ℕ
    → ℕ
    → RegistroSticks × Option (List ℕ)
leer_fragmentos zero env red r stick direccion tamanio procesado = (r, none)
leer_fragmentos (suc f) env red r stick direccion tamanio procesado = elim (ltb procesado tamanio) [
  | false ↦ (r, some [])
  | true ↦
      let actual = u32 (direccion + procesado) in
      leer_de env red actual (tamanio - procesado)
        (λ r' s n. leer_fragmentos f env red r' s direccion tamanio (u32 (procesado + n)))
        (stick_para env r stick actual)
]

abbrev pub leer_con :
    Entorno → Red → ℕ → ℕ → RegistroSticks × Option StickResuelto → RegistroSticks × Option (List ℕ)
leer_con env red direccion tamanio (r, none) = (r, none)
leer_con env red direccion tamanio (r, some stick) =
    leer_fragmentos (suc tamanio) env red r stick direccion tamanio 0

-- Each round reads at least a byte, so `tamanio` rounds and the last test are enough.
unfoldable pub memoria_read_fragmentada :
    Entorno → Red → RegistroSticks → ℕ → ℕ → ℕ → RegistroSticks × Option (List ℕ)
memoria_read_fragmentada env red r id_memory_stick direccion tamanio =
    if tamanio == 0 || ltb (uint32_max - (tamanio - 1)) direccion
    then (r, none)
    else leer_con env red direccion tamanio (resolver_inicio env r id_memory_stick direccion)

-- The connections and the table after a write, and whether it succeeded.
abbrev pub Escritura : Type 0
Escritura = (Red × RegistroSticks) × Bool

abbrev pub tras_escribir :
    RegistroSticks → StickResuelto → (Red → Escritura) → Red × Bool → Escritura
tras_escribir r s seguir (red, true) = seguir red
tras_escribir r s seguir (red, false) =
    ((red, cpu_memory_sticks_invalidar_socket r s.id_memory_stick s.socket), false)

abbrev pub escribir_de :
    Entorno
    → Red
    → ℕ
    → (ℕ → List ℕ)
    → ℕ
    → (Red → RegistroSticks → StickResuelto → ℕ → Escritura)
    → RegistroSticks × Option StickResuelto
    → Escritura
escribir_de env red actual trozo pendiente seguir (r, none) = ((red, r), false)
escribir_de env red actual trozo pendiente seguir (r, some s) =
    let fragmento = tamanio_fragmento s actual pendiente in
    tras_escribir r s (λ red'. seguir red' r s fragmento)
      (if fragmento == 0
        then (red, false)
        else memoria_write env red s.socket actual (trozo fragmento))

-- The loop of `memoria_write_fragmentada`.
unfoldable pub escribir_fragmentos :
    ℕ → Entorno → Red → RegistroSticks → StickResuelto → ℕ → List ℕ → ℕ → Escritura
escribir_fragmentos zero env red r stick direccion datos procesado = ((red, r), false)
escribir_fragmentos (suc f) env red r stick direccion datos procesado =
    elim (ltb procesado (length datos)) [
      | false ↦ ((red, r), true)
      | true ↦
          let actual = u32 (direccion + procesado) in
          escribir_de env red actual (λ n. slice procesado n datos) (length datos - procesado)
            (λ red' r' s n.
              escribir_fragmentos f env red' r' s direccion datos (u32 (procesado + n)))
            (stick_para env r stick actual)
    ]

abbrev pub escribir_con :
    Entorno → Red → ℕ → List ℕ → RegistroSticks × Option StickResuelto → Escritura
escribir_con env red direccion datos (r, none) = ((red, r), false)
escribir_con env red direccion datos (r, some stick) =
    escribir_fragmentos (suc (length datos)) env red r stick direccion datos 0

unfoldable pub memoria_write_fragmentada :
    Entorno → Red → RegistroSticks → ℕ → ℕ → List ℕ → Escritura
memoria_write_fragmentada env red r id_memory_stick direccion datos =
    if length datos == 0 || ltb (uint32_max - (length datos - 1)) direccion
    then ((red, r), false)
    else escribir_con env red direccion datos (resolver_inicio env r id_memory_stick direccion)
