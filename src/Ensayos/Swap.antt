-- ===== src/Ensayos/Swap.antt =====
-- Tests of Swap: swap/src/main.c.
use ssoo.Common.{ℕ, ◌≡◌, ◌≢◌, ◌<◌, refl, some, [], ◌∷◌, pos, arith}
use ssoo.Utils.Protocolo.{msg_ok, msg_swap_leer_resp}
use ssoo.Swap.{EstadoSwap, hecho, iniciar, atender_pedido}
use ssoo.Swap.Bloques.{Formado, bloque_de, lectura, escritura, atender_pedido-lecturas}
use ssoo.Swap.Arranque.{iniciar-Formado, atender_pedido-Formado}

abbrev e : EstadoSwap
e = record { swap_file = 1 ∷ 2 ∷ 3 ∷ 4 ∷ []; block_size = 2; cant_bloques = 2 }

e-Formado : Formado e
e-Formado = omega arith

atender_pedido-lecturas_example :
    (e' : EstadoSwap) × (atender_pedido e hecho (escritura 1 (8 ∷ 9 ∷ []))
      ≡ (e', record { op_code = msg_ok; payload = [] }))
    × Formado e'
    × (atender_pedido e' hecho (lectura 1)
        ≡ (e', record { op_code = msg_swap_leer_resp; payload = 8 ∷ 9 ∷ [] }))
    × ((m : ℕ)
        → 1 ≢ m
        → m < 2
        → atender_pedido e' hecho (lectura m)
          ≡ (e', record { op_code = msg_swap_leer_resp; payload = bloque_de e m }))
atender_pedido-lecturas_example =
    atender_pedido-lecturas e 1 (8 ∷ 9 ∷ []) e-Formado (omega arith) refl

atender_pedido-Formado_example : Formado (atender_pedido e hecho (escritura 7 (8 ∷ 9 ∷ []))).0
atender_pedido-Formado_example = atender_pedido-Formado e (escritura 7 (8 ∷ 9 ∷ [])) e-Formado

arranca : iniciar (pos 4) (pos 2) (1 ∷ 2 ∷ 3 ∷ 4 ∷ []) ≡ some e
unfolding iniciar
arranca = refl

iniciar-Formado_example : Formado e
iniciar-Formado_example =
    iniciar-Formado 4 2 (1 ∷ 2 ∷ 3 ∷ 4 ∷ []) e (omega arith) (omega arith) refl arranca
