-- ===== src/MemoryStick/Pedidos.antt =====
-- What the requests to a stick do with its buffer.
use ssoo.Common.{
  ℕ, ◌+◌, ◌-◌, ◌≤◌, ◌<◌, ◌≡◌, some, List, [], ◌++◌, length, length-append, take, drop, htonl,
  ntohl-htonl, length-htonl, ge→ltb, u32_mod, false, arith,
}
use ssoo.Utils.Protocolo.{msg_ok, msg_memory_write, msg_memory_read, msg_memory_read_respuesta}
use ssoo.MemoryStick.{
  EstadoStick, resolver_rango, respuesta, leer_pedido, manejar_write, manejar_read_con_respuesta,
  atender_kernel_memory,
}

-- The payload of a request: address, size and data.
abbrev pub pedido : ℕ → ℕ → List ℕ → List ℕ
pedido direccion size datos = htonl direccion ++ (htonl size ++ datos)

pub leer-pedido :
    (d n : ℕ) (p : List ℕ)
    → d < u32_mod
    → n < u32_mod
    → leer_pedido (pedido d n p) ≡ some ((d, n), p)
unfolding leer_pedido
leer-pedido d n p hd hn = rw (ntohl-htonl d _ hd, ntohl-htonl n p hn)

pub length-pedido : (d n : ℕ) (p : List ℕ) → length (pedido d n p) ≡ 8 + length p
length-pedido d n p = omega (
  arith,
  length-append (htonl d) (htonl n ++ p),
  length-append (htonl n) p,
  length-htonl d,
  length-htonl n,
)

resolver_rango-local :
    (e : EstadoStick) (d n : ℕ)
    → 0 < n
    → d + n ≤ length e.buffer
    → resolver_rango e d n false ≡ some d
unfolding resolver_rango
resolver_rango-local e d n h k = ground arith

-- Kernel Memory's request to read a range of the buffer is answered with the bytes of that range.
pub atender_kernel_memory-read :
    (e : EstadoStick) (d n : ℕ)
    → 0 < n
    → d + n ≤ length e.buffer
    → d < u32_mod
    → n < u32_mod
    → atender_kernel_memory e (respuesta msg_memory_read (pedido d n []))
      ≡ (e, respuesta msg_memory_read_respuesta (take n (drop d e.buffer)))
unfolding atender_kernel_memory manejar_read_con_respuesta
atender_kernel_memory-read e d n h k hd hn =
    rw (length-pedido d n [], leer-pedido d n [] hd hn, resolver_rango-local e d n h k)

-- Its request to write data at an address within the buffer puts them there and is confirmed.
pub atender_kernel_memory-write :
    (e : EstadoStick) (d : ℕ) (datos : List ℕ)
    → 0 < length datos
    → d + length datos ≤ length e.buffer
    → d < u32_mod
    → length datos < u32_mod - 8
    → atender_kernel_memory e (respuesta msg_memory_write (pedido d (length datos) datos)) ≡ (
      record e { buffer = take d e.buffer ++ (datos ++ drop (d + length datos) e.buffer) },
      respuesta msg_ok [],
    )
unfolding atender_kernel_memory manejar_write
atender_kernel_memory-write e d datos h k hd hn =
    rw
      (
        length-pedido d (length datos) datos,
        ge→ltb (8 + length datos) 8 (omega arith),
        leer-pedido d (length datos) datos hd (omega arith),
        resolver_rango-local e d (length datos) h k,
      )
      (ground (arith, hn))
