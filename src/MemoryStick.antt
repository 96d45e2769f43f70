-- ===== src/MemoryStick.antt =====
-- The program Memory Stick: memory_stick/src/main.c. A message that was received is never NULL, a
-- NULL payload is the empty one, and delays are left out.
pub mod Caminos
pub mod Pedidos
use ssoo.Common.{
  ℕ, ◌+◌, ◌-◌, Option, none, some, List, [], ◌++◌, length, take, drop, ntohl, ltb, ◌==◌,
  if◌then◌else◌, uint32_max, Bool, true, false, not, ◌||◌,
}
use ssoo.Utils.Mensaje.{Mensaje, ◌>>=◌}
use ssoo.Utils.Protocolo.{
  msg_cpu_identificacion, msg_ok, msg_error, msg_memory_write, msg_memory_read,
  msg_memory_read_respuesta, msg_leer_memoria, msg_leer_memoria_resp, msg_escribir_memoria,
}

-- `memoria_global`, whose `tamanio` is the length of the buffer, and `offset_global_ms`.
pub record EstadoStick : Type 0 where
  pub buffer : List ℕ
  pub offset_global_ms : ℕ

-- The address in the buffer; `none` is false.
unfoldable pub resolver_rango : EstadoStick → ℕ → ℕ → Bool → Option ℕ
resolver_rango e direccion_recibida tamanio direccion_global =
    let local =
      if direccion_global then direccion_recibida - e.offset_global_ms else direccion_recibida in
    if tamanio == 0
    then none
    else if (if direccion_global then ltb direccion_recibida e.offset_global_ms else false)
    then none
    else if ltb (length e.buffer) local || ltb (length e.buffer - local) tamanio
    then none
    else some local

abbrev pub respuesta : ℕ → List ℕ → Mensaje
respuesta op_code payload = record { op_code = op_code; payload = payload }

-- The two words at the head of a payload, and the bytes behind them.
unfoldable pub leer_pedido : List ℕ → Option ((ℕ × ℕ) × List ℕ)
leer_pedido p = do (direccion, p₁) ← ntohl p; (size, p₂) ← ntohl p₁; some ((direccion, size), p₂)

abbrev pub guardar : EstadoStick → List ℕ → Option ℕ → EstadoStick × Mensaje
guardar e datos none = (e, respuesta msg_error [])
guardar e datos (some local) = (
  record e { buffer = take local e.buffer ++ (datos ++ drop (local + length datos) e.buffer) },
  respuesta msg_ok [],
)

abbrev pub write_pedido : EstadoStick → ℕ → Bool → Option ((ℕ × ℕ) × List ℕ) → EstadoStick × Mensaje
write_pedido e payload_size global none = (e, respuesta msg_error [])
write_pedido e payload_size global (some ((direccion, size), datos)) =
    if ltb (uint32_max - 8) size || not (payload_size == 8 + size)
    then (e, respuesta msg_error [])
    else guardar e datos (resolver_rango e direccion size global)

unfoldable pub manejar_write : EstadoStick → List ℕ → Bool → EstadoStick × Mensaje
manejar_write e payload direccion_global =
    if ltb (length payload) 8
    then (e, respuesta msg_error [])
    else write_pedido e (length payload) direccion_global (leer_pedido payload)

abbrev pub leer : EstadoStick → ℕ → ℕ → Option ℕ → Mensaje
leer e size op_respuesta none = respuesta msg_error []
leer e size op_respuesta (some local) = respuesta op_respuesta (take size (drop local e.buffer))

abbrev pub read_pedido : EstadoStick → Bool → ℕ → Option ((ℕ × ℕ) × List ℕ) → Mensaje
read_pedido e global op_respuesta none = respuesta msg_error []
read_pedido e global op_respuesta (some ((direccion, size), resto)) =
    leer e size op_respuesta (resolver_rango e direccion size global)

unfoldable pub manejar_read_con_respuesta : EstadoStick → List ℕ → Bool → ℕ → Mensaje
manejar_read_con_respuesta e payload direccion_global op_respuesta =
    if length payload == 8
    then read_pedido e direccion_global op_respuesta (leer_pedido payload)
    else respuesta msg_error []

abbrev pub manejar_read : EstadoStick → List ℕ → Bool → Mensaje
manejar_read e payload direccion_global =
    manejar_read_con_respuesta e payload direccion_global msg_memory_read_respuesta

abbrev pub manejar_read_cpu : EstadoStick → List ℕ → Mensaje
manejar_read_cpu e payload = manejar_read_con_respuesta e payload true msg_leer_memoria_resp

-- One request on the connection of Kernel Memory, whose addresses are local.
unfoldable pub atender_kernel_memory : EstadoStick → Mensaje → EstadoStick × Mensaje
atender_kernel_memory e msg =
    if msg.op_code == msg_memory_read
    then (e, manejar_read e msg.payload false)
    else if msg.op_code == msg_memory_write
    then manejar_write e msg.payload false
    else (e, respuesta msg_error [])

-- The first message on a CPU's connection; any answer but MSG_OK ends the connection.
unfoldable pub identificar_cpu : Mensaje → Mensaje
identificar_cpu id_msg =
    if not (id_msg.op_code == msg_cpu_identificacion) || not (length id_msg.payload == 4)
    then respuesta msg_error []
    else respuesta msg_ok []

-- One request on the connection of a CPU that has identified itself; its addresses are global.
unfoldable pub atender_cpu : EstadoStick → Mensaje → EstadoStick × Mensaje
atender_cpu e msg =
    if msg.op_code == msg_leer_memoria
    then (e, manejar_read_cpu e msg.payload)
    else if msg.op_code == msg_escribir_memoria
    then manejar_write e msg.payload true
    else if msg.op_code == msg_memory_read
    then (e, manejar_read e msg.payload true)
    else if msg.op_code == msg_memory_write
    then manejar_write e msg.payload true
    else (e, respuesta msg_error [])
