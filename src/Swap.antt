-- ===== src/Swap.antt =====
-- The program Swap: swap/src/main.c. The swap file is the list of its bytes; whether the system
-- carries out a file operation of a request, and what a failed write leaves in the file, is an
-- argument. A message that was received is never NULL, and a NULL payload is the empty one.
pub mod Arranque
pub mod Bloques
use ssoo.Common.{
  ℕ, ◌+◌, ◌*◌, ◌/◌, ◌%◌, ◌≡◌, Option, none, some, List, [], length, slice, splice, u32, ntohl, ltb,
  leb, ◌==◌, if◌then◌else◌, Bool, true, false, not, ◌&&◌, ◌||◌, ℤ, pos, negsuc,
}
use ssoo.Utils.Mensaje.{Mensaje}
use ssoo.Utils.Protocolo.{msg_ok, msg_error, msg_swap_leer, msg_swap_leer_resp, msg_swap_escribir}

pub record EstadoSwap : Type 0 where
  pub swap_file : List ℕ
  pub block_size : ℕ
  pub cant_bloques : ℕ

-- The file operations of one request: carried out, or failed with the file as it is then.
pub data Archivo : Type 0 where
  hecho : Archivo
  fallo : List ℕ → Archivo

-- The test of SWAP_FILE_SIZE and BLOCK_SIZE, and the state that main starts with; the file has the
-- size that ftruncate gives it.
unfoldable pub iniciar : ℤ → ℤ → List ℕ → Option EstadoSwap
iniciar (negsuc n) block_size swap_file = none
iniciar (pos n) (negsuc m) swap_file = none
iniciar (pos swap_size) (pos block_size) swap_file =
    if swap_size == 0
      || (block_size == 0 || (ltb swap_size block_size || not (swap_size % block_size == 0)))
    then none
    else some (record {
      swap_file = swap_file;
      block_size = block_size;
      cant_bloques = swap_size / block_size;
    })

abbrev pub error_swap : EstadoSwap → EstadoSwap × Mensaje
error_swap e = (e, record { op_code = msg_error; payload = [] })

-- A read of a block that is in range; a failed read leaves the file.
unfoldable pub leer_bloque : EstadoSwap → Archivo → ℕ → EstadoSwap × Mensaje
leer_bloque e (fallo f) nro_bloque = error_swap e
leer_bloque e hecho nro_bloque = (
  e,
  record {
    op_code = msg_swap_leer_resp;
    payload = slice (nro_bloque * e.block_size) e.block_size e.swap_file;
  },
)

unfoldable pub escribir_bloque : EstadoSwap → Archivo → ℕ → List ℕ → EstadoSwap × Mensaje
escribir_bloque e (fallo f) nro_bloque datos = error_swap (record e { swap_file = f })
escribir_bloque e hecho nro_bloque datos = (
  record e { swap_file = splice (nro_bloque * e.block_size) datos e.swap_file },
  record { op_code = msg_ok; payload = [] },
)

-- The branch of MSG_SWAP_LEER.
unfoldable pub pedido_leer : EstadoSwap → Archivo → List ℕ → EstadoSwap × Mensaje
pedido_leer e archivo payload =
    if not (length payload == 4) then error_swap e else elim (ntohl payload) [
      | none ↦ error_swap e
      | some (nro_bloque, resto) ↦
          if leb e.cant_bloques nro_bloque then error_swap e else leer_bloque e archivo nro_bloque
    ]

-- The branch of MSG_SWAP_ESCRIBIR.
unfoldable pub pedido_escribir : EstadoSwap → Archivo → List ℕ → EstadoSwap × Mensaje
pedido_escribir e archivo payload =
    if not (length payload == u32 (4 + e.block_size)) then error_swap e else elim (ntohl payload) [
      | none ↦ error_swap e
      | some (nro_bloque, datos) ↦
          if leb e.cant_bloques nro_bloque
          then error_swap e
          else escribir_bloque e archivo nro_bloque datos
    ]

-- One round of the loop: the state after a request, and the answer to it.
unfoldable pub atender_pedido : EstadoSwap → Archivo → Mensaje → EstadoSwap × Mensaje
atender_pedido e archivo pedido =
    if pedido.op_code == msg_swap_leer
    then pedido_leer e archivo pedido.payload
    else if pedido.op_code == msg_swap_escribir
    then pedido_escribir e archivo pedido.payload
    else error_swap e
