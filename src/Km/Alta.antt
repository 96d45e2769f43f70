-- ===== src/Km/Alta.antt =====
-- The identification of a Memory Stick: the branch of MSG_MEMORY_STICK_IDENTIFICACION of
-- kernel_memory/src/main.c.
pub mod Particion
use ssoo.Common.{
  ℕ, ◌+◌, ◌<◌, Option, none, some, List, [], ◌∷◌, ◌++◌, length, ltb, ◌==◌, not, ◌&&◌, ◌||◌,
  if◌then◌else◌, Bool, true, false, ntohl,
}
use ssoo.Km.Huecos.{Hueco, agregar_hueco, fusionar_huecos}
use ssoo.Km.Sticks.{MemoryStick, nuevo_stick}

pub record EstadoMemoria : Type 0 where
  pub memory_sticks : List MemoryStick
  pub huecos : List Hueco
  pub next_ms_id : ℕ

-- The size and the port of the payload: four bytes, or eight with the port.
unfoldable pub leer_identificacion : List ℕ → Option (ℕ × ℕ)
leer_identificacion payload =
    if not (length payload == 4 || length payload == 8) then none else elim (ntohl payload) [
      | none ↦ none
      | some (tamanio, resto) ↦
          if length payload == 8
          then elim (ntohl resto) [ none ↦ none | some (puerto, fin) ↦ some (tamanio, puerto) ]
          else some (tamanio, 0)
    ]

-- The stick stands last and its range is free, merged with the one before it; the number is the
-- offset that the answer tells.
abbrev pub sumar_stick : EstadoMemoria → Option MemoryStick → Option (EstadoMemoria × ℕ)
sumar_stick e none = none
sumar_stick e (some ms) = some (
  record {
    memory_sticks = e.memory_sticks ++ ms ∷ [];
    huecos = fusionar_huecos (agregar_hueco ms.offset_global ms.tamanio e.huecos);
    next_ms_id = e.next_ms_id + 1;
  },
  ms.offset_global,
)

-- `peer` is the IPv4 address that getpeername gives, if it does; `none` is the answer MSG_ERROR,
-- with the state as it was. The thread that monitors the stick is left out, and assumed to start;
-- so is the note to the scheduler that there is more memory.
unfoldable pub identificar_memory_stick :
    EstadoMemoria → ℕ → Option ℕ → List ℕ → Option (EstadoMemoria × ℕ)
identificar_memory_stick e fd peer payload = elim (leer_identificacion payload) [
  | none ↦ none
  | some (tamanio, puerto) ↦ elim peer [
    | none ↦ none
    | some ipv4 ↦
        if ltb 0 tamanio && not (ltb 65535 puerto)
        then sumar_stick e (nuevo_stick e.next_ms_id fd tamanio ipv4 puerto e.memory_sticks)
        else none
  ]
]
