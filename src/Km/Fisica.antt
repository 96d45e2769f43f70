-- ===== src/Km/Fisica.antt =====
-- Physical memory as Kernel Memory sees it (kernel_memory/src/main.c): reads and writes that go
-- over several Memory Sticks. The stick behind a connection is a state of MemoryStick, which
-- answers each request; `malloc` never fails.
pub mod Plana
pub mod Lectura
pub mod Escritura
use ssoo.Common.{
  ℕ, zero, suc, ◌+◌, ◌-◌, Option, none, some, List, [], ◌∷◌, ◌++◌, length, slice, ltb, ◌==◌,
  if◌then◌else◌, u32, uint32_max, Bool, true, false, htonl, ◌&&◌, ◌||◌, not,
}
use ssoo.Utils.Mensaje.{Mensaje}
use ssoo.Utils.Protocolo.{msg_ok, msg_memory_write, msg_memory_read, msg_memory_read_respuesta}
use ssoo.MemoryStick.{EstadoStick, atender_kernel_memory, respuesta}
use ssoo.Km.Sticks.{MemoryStick, ms_para_direccion}

-- The stick at the other end of each connection.
abbrev pub Red : Type 0
Red = ℕ → EstadoStick

abbrev pub actualizar : Red → ℕ → EstadoStick → Red
actualizar red fd e g = if fd == g then e else red g

-- The result 0 is true, -1 false.
unfoldable pub ms_escribir : Red → MemoryStick → ℕ → List ℕ → Red × Bool
ms_escribir red ms dir_local datos =
    let tamanio = length datos in
    let (e, resp) =
      atender_kernel_memory (red ms.fd)
        (respuesta msg_memory_write (htonl dir_local ++ (htonl tamanio ++ datos))) in
    if tamanio == 0 || ltb (uint32_max - 8) tamanio
    then (red, false)
    else (actualizar red ms.fd e, resp.op_code == msg_ok)

-- `none` is NULL.
unfoldable pub ms_leer : Red → MemoryStick → ℕ → ℕ → Option (List ℕ)
ms_leer red ms dir_local tamanio =
    let (e, resp) =
      atender_kernel_memory (red ms.fd)
        (respuesta msg_memory_read (htonl dir_local ++ (htonl tamanio ++ []))) in
    if tamanio == 0
    then none
    else if resp.op_code == msg_memory_read_respuesta && length resp.payload == tamanio
    then some resp.payload
    else none

-- What one round asks of a stick: what is left, but no more than the stick has.
abbrev pub tramo : MemoryStick → ℕ → ℕ → ℕ
tramo ms dir_local falta =
    if ltb falta (ms.tamanio - dir_local) then falta else ms.tamanio - dir_local

abbrev pub anteponer : List ℕ → Option (List ℕ) → Option (List ℕ)
anteponer chunk none = none
anteponer chunk (some resto) = some (chunk ++ resto)

-- The loop of `leer_fisico` on fuel; the result is what is read from `leido` on.
unfoldable pub leer_desde : ℕ → Red → List MemoryStick → ℕ → ℕ → ℕ → Option (List ℕ)
leer_desde zero red sticks dir_global tamanio leido = none
leer_desde (suc f) red sticks dir_global tamanio leido = elim (ltb leido tamanio) [
  | false ↦ some []
  | true ↦ elim (ms_para_direccion (u32 (dir_global + leido)) sticks) [
    | none ↦ none
    | some (ms, dir_local) ↦
        elim (ms_leer red ms dir_local (tramo ms dir_local (tamanio - leido))) [
          | none ↦ none
          | some chunk ↦ anteponer chunk (
              leer_desde f red sticks dir_global tamanio
                (u32 (leido + tramo ms dir_local (tamanio - leido))))
        ]
  ]
]

-- Each round reads at least a byte, so `tamanio` rounds and the last test are enough.
unfoldable pub leer_fisico : Red → List MemoryStick → ℕ → ℕ → Option (List ℕ)
leer_fisico red sticks dir_global tamanio =
    if tamanio == 0 || ltb (uint32_max - (tamanio - 1)) dir_global
    then none
    else leer_desde (suc tamanio) red sticks dir_global tamanio 0

-- The loop of `escribir_fisico`; the result 0 is true, -1 false.
unfoldable pub escribir_desde : ℕ → Red → List MemoryStick → ℕ → List ℕ → ℕ → Red × Bool
escribir_desde zero red sticks dir_global datos escrito = (red, false)
escribir_desde (suc f) red sticks dir_global datos escrito = elim (ltb escrito (length datos)) [
  | false ↦ (red, true)
  | true ↦ elim (ms_para_direccion (u32 (dir_global + escrito)) sticks) [
    | none ↦ (red, false)
    | some (ms, dir_local) ↦
        let a_escribir = tramo ms dir_local (length datos - escrito) in
        let (red', ok) = ms_escribir red ms dir_local (slice escrito a_escribir datos) in
        elim ok [
          | false ↦ (red', false)
          | true ↦ escribir_desde f red' sticks dir_global datos (u32 (escrito + a_escribir))
        ]
  ]
]

unfoldable pub escribir_fisico : Red → List MemoryStick → ℕ → List ℕ → Red × Bool
escribir_fisico red sticks dir_global datos =
    if length datos == 0 || ltb (uint32_max - (length datos - 1)) dir_global
    then (red, false)
    else escribir_desde (suc (length datos)) red sticks dir_global datos 0
