-- ===== src/Swap/Arranque.antt =====
-- The start of Swap, and every request that follows: swap/src/main.c.
use ssoo.Common.{
  ℕ, ◌+◌, ◌*◌, ◌/◌, ◌%◌, ◌≡◌, ◌<◌, sym, ◌∙◌, some, List, length, u32, ntohl-cases, ltb, leb, ◌==◌,
  not, ◌||◌, pos, arith, Bool-cases, inl, inr, ==_iff,
}
use ssoo.Utils.Mensaje.{Mensaje}
use ssoo.Utils.Protocolo.{msg_swap_leer, msg_swap_escribir}
use ssoo.Swap.{
  EstadoSwap, hecho, iniciar, leer_bloque, escribir_bloque, pedido_leer, pedido_escribir,
  atender_pedido,
}
use ssoo.Swap.Bloques.{Formado, escrito-Formado}

-- A start that the test of the configuration lets through, with a file of the configured size,
-- gives a file made of whole blocks.
pub iniciar-Formado :
    (swap_size block_size : ℕ) (f : List ℕ) (e : EstadoSwap)
    → swap_size < 2147483648
    → block_size < 2147483648
    → length f ≡ swap_size
    → iniciar (pos swap_size) (pos block_size) f ≡ some e
    → Formado e
unfolding iniciar
iniciar-Formado s b f e hs hb h k =
    let valido = s == 0 || (b == 0 || (ltb s b || not (s % b == 0))) in
    elim (Bool-cases valido) [
      | inl t ↦ absurd (ground (arith, k, t))
      | inr t ↦
          let q : (record { swap_file = f; block_size = b; cant_bloques = s / b }) ≡ e =
            ground (arith, k, t) in
          let exacto : s ≡ s / b * b = grind (arith, t) in
          let positivo : 0 < b = ground (arith, t) in
          rw (sym q) (record {
            tamanio = h ∙ exacto;
            bloque = positivo;
            cabe = omega arith;
            bloques = grind (arith, positivo);
          })
    ]

pedido_leer-mismo : (e : EstadoSwap) (p : List ℕ) → (pedido_leer e hecho p).0 ≡ e
unfolding pedido_leer leer_bloque
pedido_leer-mismo e p = ground arith

pedido_escribir-Formado :
    (e : EstadoSwap) (p : List ℕ) → Formado e → Formado (pedido_escribir e hecho p).0
unfolding pedido_escribir escribir_bloque
pedido_escribir-Formado e p f = elim (Bool-cases (length p == u32 (4 + e.block_size))) [
  | inr t ↦ rw t f
  | inl t ↦ rw t (elim (ntohl-cases p) [
    | inl (corto, q) ↦ rw (q, pedido_escribir) f
    | inr (n, datos, largo, q) ↦
        rw (q, pedido_escribir)
          (elim (Bool-cases (leb e.cant_bloques n)) [
            | inl r ↦ rw r f
            | inr r ↦ rw r (
                escrito-Formado e n datos f (ground (arith, r))
                  (omega (arith, (==_iff (length p) (u32 (4 + e.block_size))).0 t, f.cabe, largo)))
          ])
  ])
]

-- A request of any kind, carried out by the system or refused, keeps the file made of its blocks.
pub atender_pedido-Formado :
    (e : EstadoSwap) (m : Mensaje) → Formado e → Formado (atender_pedido e hecho m).0
unfolding atender_pedido
atender_pedido-Formado e m f = elim (Bool-cases (m.op_code == msg_swap_leer)) [
  | inl t ↦ rw t (rw (pedido_leer-mismo e m.payload) f)
  | inr t ↦ rw t (elim (Bool-cases (m.op_code == msg_swap_escribir)) [
    | inl q ↦ rw q (pedido_escribir-Formado e m.payload f)
    | inr q ↦ rw q f
  ])
]
