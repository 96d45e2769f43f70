-- ===== src/Ensayos/Utils.antt =====
-- Tests of the messages and of the context: utils/src/utils/sockets.c.
use ssoo.Common.{
  ℕ, ◌≡◌, ◌≤◌, ◌<◌, ◌+◌, ◌*◌, ◌↔◌, refl, some, List, [], ◌∷◌, ◌++◌, length, true, u32, htonl, ntohl,
  arith,
}
use ssoo.Utils.Contexto.{
  ContextoCpu, EntradaSegmento, ContextoEnRango, leido, desborde, serializar_contexto,
  leer_cabecera, deserializar_contexto,
}
use ssoo.Utils.Contexto.Formato.{deserializar-serializar_contexto, deserializar_contexto-desborde}
use ssoo.Utils.Mensaje.{recibir_mensaje, enviar_mensaje}
use ssoo.Utils.Mensaje.Trama.{SinFin, bytes, recibir-enviar_mensaje}
use ssoo.Cpu.Registros.{inicializar_registros_cpu}

abbrev un_segmento : EntradaSegmento
un_segmento = record { id_segmento = 3; id_memory_stick = 1; base = 70000; limite = 256 }

abbrev ctx : ContextoCpu
ctx = record { pid = 7; registros = inicializar_registros_cpu; segmentos = un_segmento ∷ [] }

ctx-EnRango : ContextoEnRango ctx
unfolding inicializar_registros_cpu
ctx-EnRango = record {
  pid_cabe = omega arith;
  registros_caben = omega arith;
  segmentos_caben = (omega arith, tt);
}

deserializar-serializar_contexto_example :
    deserializar_contexto (serializar_contexto ctx ++ 1 ∷ 2 ∷ []) ≡ leido ctx
deserializar-serializar_contexto_example =
    deserializar-serializar_contexto ctx (1 ∷ 2 ∷ []) ctx-EnRango (omega arith)

-- A payload of 40 bytes whose count is 2 ^ 28.
abbrev malo : List ℕ
malo =
    0 ∷ 0 ∷ 0 ∷ 7 ∷ 0 ∷ 0 ∷ 0 ∷ 0 ∷ 0 ∷ 0 ∷ 0 ∷ 0 ∷ 0 ∷ 0 ∷ 0 ∷ 0 ∷ 0 ∷ 0 ∷ 0 ∷ 0 ∷ 0 ∷ 0 ∷ 0 ∷ 0
    ∷ 0 ∷ 0 ∷ 0 ∷ 0 ∷ 0 ∷ 0 ∷ 0 ∷ 0 ∷ 0 ∷ 0 ∷ 0 ∷ 0 ∷ 16 ∷ 0 ∷ 0 ∷ 0 ∷ []

abbrev vacio : ContextoCpu
vacio = record { pid = 7; registros = inicializar_registros_cpu; segmentos = [] }

malo-cabecera : leer_cabecera malo ≡ some ((vacio, 268435456), [])
unfolding leer_cabecera inicializar_registros_cpu ntohl
malo-cabecera = refl

deserializar_contexto-desborde_example :
    (deserializar_contexto malo ≡ desborde)
    ↔ ((length malo < 40 + 16 * 268435456) × (u32 (40 + u32 (268435456 * 16)) ≤ length malo))
deserializar_contexto-desborde_example =
    deserializar_contexto-desborde malo [] vacio 268435456 malo-cabecera

-- The message 5 with the payload 8 9, and the byte 1 behind it, in three chunks.
abbrev trozos : List (List ℕ)
trozos = (0 ∷ 0 ∷ 0 ∷ []) ∷ (5 ∷ 0 ∷ 0 ∷ 0 ∷ 2 ∷ 8 ∷ []) ∷ (9 ∷ 1 ∷ []) ∷ []

trozos-bytes : bytes trozos ≡ enviar_mensaje true 5 (some (8 ∷ 9 ∷ [])) 2 ++ 1 ∷ []
unfolding enviar_mensaje htonl
trozos-bytes = refl

recibir-enviar_mensaje_example :
    (cs' : List (List ℕ)) × (recibir_mensaje trozos
      ≡ some (record { op_code = 5; payload = 8 ∷ 9 ∷ [] }, cs'))
    × (bytes cs' ≡ 1 ∷ [])
    × SinFin cs'
recibir-enviar_mensaje_example =
    recibir-enviar_mensaje 5 (8 ∷ 9 ∷ []) (1 ∷ []) trozos (omega arith) (omega arith)
      (omega arith, (omega arith, (omega arith, tt))) trozos-bytes
