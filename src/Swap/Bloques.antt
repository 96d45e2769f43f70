-- ===== src/Swap/Bloques.antt =====
-- The blocks of the swap file: swap/src/main.c.
use ssoo.Common.{
  ℕ, ◌+◌, ◌*◌, ◌≡◌, ◌≢◌, ◌<◌, ◌≤◌, sym, ap, ◌∙◌, some, List, [], ◌++◌, append-nil, length,
  length-append, slice, splice, u32_mod, htonl, ntohl, ntohl-htonl, length-htonl, arith,
  length-splice, slice-splice_same, slice-splice_before, slice-splice_after, ◌⊎◌, inl, inr,
}
use ssoo.Utils.Mensaje.{Mensaje}
use ssoo.Utils.Protocolo.{msg_ok, msg_swap_leer, msg_swap_leer_resp, msg_swap_escribir}
use ssoo.Swap.{
  EstadoSwap, hecho, leer_bloque, escribir_bloque, pedido_leer, pedido_escribir, atender_pedido,
}

-- The file is made of the blocks, and a request fits a uint32_t.
pub record Formado (e : EstadoSwap) : Type 0 where
  pub tamanio : length e.swap_file ≡ e.cant_bloques * e.block_size
  pub bloque : 0 < e.block_size
  pub cabe : 4 + e.block_size < u32_mod
  pub bloques : e.cant_bloques ≤ u32_mod

-- The contents of a block.
pub bloque_de : EstadoSwap → ℕ → List ℕ
bloque_de e n = slice (n * e.block_size) e.block_size e.swap_file

abbrev pub lectura : ℕ → Mensaje
lectura n = record { op_code = msg_swap_leer; payload = htonl n }

abbrev pub escritura : ℕ → List ℕ → Mensaje
escritura n datos = record { op_code = msg_swap_escribir; payload = htonl n ++ datos }

bloque-le : (n c b : ℕ) → n < c → n * b + b ≤ c * b
bloque-le n c b h = grind arith

pub lectura-lem :
    (e : EstadoSwap) (n : ℕ)
    → Formado e
    → n < e.cant_bloques
    → atender_pedido e hecho (lectura n)
      ≡ (e, record { op_code = msg_swap_leer_resp; payload = bloque_de e n })
unfolding atender_pedido pedido_leer leer_bloque bloque_de
lectura-lem e n f h =
    let p : ntohl (htonl n) ≡ some (n, []) =
      rw (sym (append-nil (htonl n))) (ntohl-htonl n [] (omega (arith, f.bloques))) in
    rw (length-htonl n, p) (ground (arith, h))

lt-or-gt : (n m : ℕ) → n ≢ m → (n < m) ⊎ (m < n)
lt-or-gt n m h = ground arith

otro_bloque : (n m b : ℕ) → n ≢ m → (n * b + b ≤ m * b) ⊎ (m * b + b ≤ n * b)
otro_bloque n m b h = elim (lt-or-gt n m h) [
  | inl k ↦ inl (bloque-le n m b k)
  | inr k ↦ inr (bloque-le m n b k)
]

escritura-lem :
    (e : EstadoSwap) (n : ℕ) (datos : List ℕ)
    → Formado e
    → n < e.cant_bloques
    → length datos ≡ e.block_size
    → atender_pedido e hecho (escritura n datos) ≡ (
      record e { swap_file = splice (n * e.block_size) datos e.swap_file },
      record { op_code = msg_ok; payload = [] },
    )
unfolding atender_pedido pedido_escribir escribir_bloque
escritura-lem e n datos f h k =
    let t : length (htonl n ++ datos) ≡ 4 + e.block_size =
      omega (arith, length-append (htonl n) datos, length-htonl n, k) in
    rw (t, ntohl-htonl n datos (omega (arith, f.bloques))) (ground (arith, h, f.cabe))

-- The state after the write of a block.
abbrev pub escrito : EstadoSwap → ℕ → List ℕ → EstadoSwap
escrito e n datos = record e { swap_file = splice (n * e.block_size) datos e.swap_file }

pub escrito-Formado :
    (e : EstadoSwap) (n : ℕ) (datos : List ℕ)
    → Formado e
    → n < e.cant_bloques
    → length datos ≡ e.block_size
    → Formado (escrito e n datos)
escrito-Formado e n datos f h k = record {
  tamanio =
      length-splice (n * e.block_size) datos e.swap_file
        (omega (arith, bloque-le n e.cant_bloques e.block_size h, f.tamanio, k))
      ∙ f.tamanio;
  bloque = f.bloque;
  cabe = f.cabe;
  bloques = f.bloques;
}

escrito-mismo :
    (e : EstadoSwap) (n : ℕ) (datos : List ℕ)
    → Formado e
    → n < e.cant_bloques
    → length datos ≡ e.block_size
    → bloque_de (escrito e n datos) n ≡ datos
unfolding bloque_de
escrito-mismo e n datos f h k =
    ap (λ (b : ℕ). slice (n * e.block_size) b (splice (n * e.block_size) datos e.swap_file)) (sym k)
    ∙ slice-splice_same (n * e.block_size) datos e.swap_file
        (omega (arith, bloque-le n e.cant_bloques e.block_size h, f.tamanio, k))

escrito-otro :
    (e : EstadoSwap) (n m : ℕ) (datos : List ℕ)
    → Formado e
    → n < e.cant_bloques
    → length datos ≡ e.block_size
    → n ≢ m
    → bloque_de (escrito e n datos) m ≡ bloque_de e m
unfolding bloque_de
escrito-otro e n m datos f h k d =
    let dentro : n * e.block_size ≤ length e.swap_file =
      omega (arith, bloque-le n e.cant_bloques e.block_size h, f.tamanio) in
    elim (otro_bloque n m e.block_size d) [
      | inl q ↦
          slice-splice_after (m * e.block_size) e.block_size (n * e.block_size) datos e.swap_file
            (omega (arith, q, k)) dentro
      | inr q ↦
          slice-splice_before (m * e.block_size) e.block_size (n * e.block_size) datos e.swap_file q
            dentro
    ]

-- A write of a whole block that is in range, carried out by the system, is confirmed and keeps the
-- file made of its blocks. A read of that block is then answered with what was written, a read of
-- any other block with what it held before.
pub atender_pedido-lecturas :
    (e : EstadoSwap) (n : ℕ) (datos : List ℕ)
    → Formado e
    → n < e.cant_bloques
    → length datos ≡ e.block_size
    → (e' : EstadoSwap) × (atender_pedido e hecho (escritura n datos)
        ≡ (e', record { op_code = msg_ok; payload = [] }))
      × Formado e'
      × (atender_pedido e' hecho (lectura n)
          ≡ (e', record { op_code = msg_swap_leer_resp; payload = datos }))
      × ((m : ℕ)
          → n ≢ m
          → m < e.cant_bloques
          → atender_pedido e' hecho (lectura m)
            ≡ (e', record { op_code = msg_swap_leer_resp; payload = bloque_de e m }))
atender_pedido-lecturas e n datos f h k =
    let e' : EstadoSwap = escrito e n datos in
    let f' : Formado (escrito e n datos) = escrito-Formado e n datos f h k in
    (
      e',
      escritura-lem e n datos f h k,
      f',
      lectura-lem e' n f' h
          ∙ ap (λ (p : List ℕ). (e', record { op_code = msg_swap_leer_resp; payload = p }))
              (escrito-mismo e n datos f h k),
      λ m d q.
          lectura-lem e' m f' q
          ∙ ap (λ (p : List ℕ). (e', record { op_code = msg_swap_leer_resp; payload = p }))
              (escrito-otro e n m datos f h k d),
    )
