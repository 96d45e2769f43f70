-- ===== src/Km/Endpoints.antt =====
-- How Kernel Memory tells a CPU where a Memory Stick is: kernel_memory/src/main.c.
pub mod Busqueda
use ssoo.Common.{
  ℕ, ◌-◌, Option, none, some, List, [], ◌∷◌, ◌++◌, length, leb, ltb, ◌==◌, ◌&&◌, if◌then◌else◌,
  htonl, ntohl, not,
}
use ssoo.Utils.Mensaje.{Mensaje}
use ssoo.Utils.Protocolo.{
  msg_error, msg_solicitar_memory_stick, msg_memory_stick_endpoint,
  msg_solicitar_memory_stick_direccion,
}
use ssoo.MemoryStick.{respuesta}
use ssoo.Km.Sticks.{MemoryStick}

-- The payload of MSG_MEMORY_STICK_ENDPOINT. `ipv4` is the word whose bytes in network order are
-- those of the address.
unfoldable pub completar_endpoint : MemoryStick → List ℕ
completar_endpoint ms =
    htonl ms.id
    ++ (htonl ms.ipv4 ++ (htonl ms.puerto ++ (htonl ms.offset_global ++ htonl ms.tamanio)))

unfoldable pub endpoint_por_id : ℕ → List MemoryStick → Option (List ℕ)
endpoint_por_id id_memory_stick [] = none
endpoint_por_id id_memory_stick (ms ∷ sticks) =
    if ms.activo && ms.id == id_memory_stick
    then some (completar_endpoint ms)
    else endpoint_por_id id_memory_stick sticks

unfoldable pub endpoint_por_direccion : ℕ → List MemoryStick → Option (List ℕ)
endpoint_por_direccion direccion_fisica [] = none
endpoint_por_direccion direccion_fisica (ms ∷ sticks) =
    if ms.activo
      && (leb ms.offset_global direccion_fisica
          && ltb (direccion_fisica - ms.offset_global) ms.tamanio)
    then some (completar_endpoint ms)
    else endpoint_por_direccion direccion_fisica sticks

abbrev pub responder : Option (List ℕ) → Mensaje
responder none = respuesta msg_error []
responder (some endpoint) = respuesta msg_memory_stick_endpoint endpoint

abbrev pub responder_a : (ℕ → Option (List ℕ)) → Option (ℕ × List ℕ) → Mensaje
responder_a buscar none = respuesta msg_error []
responder_a buscar (some (solicitud, resto)) = responder (buscar solicitud)

abbrev pub atender_solicitud : (ℕ → Option (List ℕ)) → List ℕ → Mensaje
atender_solicitud buscar payload =
    if not (length payload == 4) then respuesta msg_error [] else responder_a buscar (ntohl payload)

-- The two requests for a stick; `none` is a request that another branch handles.
unfoldable pub solicitar_stick : List MemoryStick → Mensaje → Option Mensaje
solicitar_stick sticks pedido =
    if pedido.op_code == msg_solicitar_memory_stick
    then some (atender_solicitud (λ id. endpoint_por_id id sticks) pedido.payload)
    else if pedido.op_code == msg_solicitar_memory_stick_direccion
    then some (atender_solicitud (λ dir. endpoint_por_direccion dir sticks) pedido.payload)
    else none
