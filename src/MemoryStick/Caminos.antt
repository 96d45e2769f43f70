-- ===== src/MemoryStick/Caminos.antt =====
-- The two ways into the buffer of a stick: the local addresses of Kernel Memory and the global ones
-- of the CPUs. memory_stick/src/main.c.
use ssoo.Common.{
  ℕ, ◌+◌, ◌-◌, ◌≤◌, ◌<◌, ◌≡◌, refl, ap, ◌∙◌, some, List, [], length, slice, splice,
  slice-splice_same, length-splice, u32_mod, true, ge→ltb, arith,
}
use ssoo.Utils.Protocolo.{
  msg_ok, msg_memory_write, msg_memory_read, msg_memory_read_respuesta, msg_leer_memoria,
  msg_leer_memoria_resp,
}
use ssoo.MemoryStick.{
  EstadoStick, resolver_rango, respuesta, manejar_read_con_respuesta, manejar_write,
  atender_kernel_memory, atender_cpu,
}
use ssoo.MemoryStick.Pedidos.{pedido, leer-pedido, length-pedido, atender_kernel_memory-write}

resolver_rango-global :
    (e : EstadoStick) (d n : ℕ)
    → 0 < n
    → d + n ≤ length e.buffer
    → resolver_rango e (e.offset_global_ms + d) n true ≡ some d
unfolding resolver_rango
resolver_rango-global e d n h k = ground arith

-- A CPU's request for a range of global addresses that the stick holds is answered with the bytes
-- at the addresses less the stick's offset.
atender_cpu-lectura :
    (e : EstadoStick) (d n : ℕ)
    → 0 < n
    → d + n ≤ length e.buffer
    → e.offset_global_ms + d < u32_mod
    → n < u32_mod
    → atender_cpu e (respuesta msg_leer_memoria (pedido (e.offset_global_ms + d) n []))
      ≡ (e, respuesta msg_leer_memoria_resp (slice d n e.buffer))
unfolding atender_cpu manejar_read_con_respuesta
atender_cpu-lectura e d n h k hd hn = rw (
  length-pedido (e.offset_global_ms + d) n [],
  leer-pedido (e.offset_global_ms + d) n [] hd hn,
  resolver_rango-global e d n h k,
)

-- The same with the operation code that the CPU sends.
pub atender_cpu-read :
    (e : EstadoStick) (d n : ℕ)
    → 0 < n
    → d + n ≤ length e.buffer
    → e.offset_global_ms + d < u32_mod
    → n < u32_mod
    → atender_cpu e (respuesta msg_memory_read (pedido (e.offset_global_ms + d) n []))
      ≡ (e, respuesta msg_memory_read_respuesta (slice d n e.buffer))
unfolding atender_cpu manejar_read_con_respuesta
atender_cpu-read e d n h k hd hn = rw (
  length-pedido (e.offset_global_ms + d) n [],
  leer-pedido (e.offset_global_ms + d) n [] hd hn,
  resolver_rango-global e d n h k,
)

-- A CPU's write to global addresses that the stick holds.
pub atender_cpu-write :
    (e : EstadoStick) (d : ℕ) (datos : List ℕ)
    → 0 < length datos
    → d + length datos ≤ length e.buffer
    → e.offset_global_ms + d < u32_mod
    → length datos < u32_mod - 8
    → atender_cpu e
        (respuesta msg_memory_write (pedido (e.offset_global_ms + d) (length datos) datos))
      ≡ (record e { buffer = splice d datos e.buffer }, respuesta msg_ok [])
unfolding atender_cpu manejar_write splice
atender_cpu-write e d datos h k hd hn =
    rw
      (
        length-pedido (e.offset_global_ms + d) (length datos) datos,
        ge→ltb (8 + length datos) 8 (omega arith),
        leer-pedido (e.offset_global_ms + d) (length datos) datos hd (omega arith),
        resolver_rango-global e d (length datos) h k,
      )
      (ground (arith, hn))

-- Data that Kernel Memory writes at a local address within the buffer is confirmed, and is what a
-- CPU then reads at the address that is the stick's offset further on; other bytes stay. The
-- global address fits 32 bits, and the data one message.
pub atender_cpu-atender_kernel_memory :
    (e : EstadoStick) (d : ℕ) (datos : List ℕ)
    → 0 < length datos
    → d + length datos ≤ length e.buffer
    → e.offset_global_ms + d < u32_mod
    → length datos < u32_mod - 8
    → (e' : EstadoStick) × (atender_kernel_memory e
          (respuesta msg_memory_write (pedido d (length datos) datos))
        ≡ (e', respuesta msg_ok []))
      × (atender_cpu e'
            (respuesta msg_leer_memoria (pedido (e.offset_global_ms + d) (length datos) []))
          ≡ (e', respuesta msg_leer_memoria_resp datos))
      × (e'.buffer ≡ splice d datos e.buffer)
unfolding splice
atender_cpu-atender_kernel_memory e d datos h k hd hn =
    let e' : EstadoStick = record e { buffer = splice d datos e.buffer } in
    let cabe : d + length datos ≤ length e'.buffer =
      omega (arith, length-splice d datos e.buffer k) in
    (
      e',
      atender_kernel_memory-write e d datos h k (omega arith) hn,
      atender_cpu-lectura e' d (length datos) h cabe hd (omega arith)
          ∙ ap (λ (b : List ℕ). (e', respuesta msg_leer_memoria_resp b))
              (slice-splice_same d datos e.buffer k),
      refl,
    )
