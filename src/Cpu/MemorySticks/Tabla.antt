-- ===== src/Cpu/MemorySticks/Tabla.antt =====
-- The table of the sticks that a CPU knows: cpu/src/cpu_memory_sticks.h and cpu_memory_sticks.c.
use ssoo.Common.{
  ℕ, zero, suc, ◌*◌, ◌-◌, ◌/◌, Option, none, some, List, [], ◌++◌, length, get_elem?, set,
  replicate, leb, ltb, ◌==◌, if◌then◌else◌, Bool, true, false, ℤ, pos, negsuc, menos_uno, int_eq,
}

abbrev pub cpu_memory_stick_id_max : ℕ
cpu_memory_stick_id_max = 4096

-- SIZE_MAX, where size_t has 64 bits, and the size of a cache entry.
abbrev pub size_max : ℕ
size_max = 18446744073709551615

abbrev pub tamanio_entrada : ℕ
tamanio_entrada = 16

pub record CacheStick : Type 0 where
  pub socket : ℤ
  pub base_global : ℕ
  pub tamanio : ℕ
  pub rango_conocido : Bool

-- `capacidad` is the length of the list, a NULL array the empty list.
pub record RegistroSticks : Type 0 where
  pub socket_kernel_memory : ℤ
  pub cpu_id : ℕ
  pub sticks : List CacheStick

-- `socket >= 0`
abbrev pub abierto : ℤ → Bool
abierto (pos n) = true
abierto (negsuc n) = false

unfoldable pub inicializar_entrada : CacheStick
inicializar_entrada = record {
  socket = menos_uno;
  base_global = 0;
  tamanio = 0;
  rango_conocido = false;
}

-- The loop that doubles the capacity, on fuel; `none` is the result false.
unfoldable pub duplicar : ℕ → ℕ → ℕ → Option ℕ
duplicar zero nueva_capacidad id_memory_stick = none
duplicar (suc f) nueva_capacidad id_memory_stick =
    let resto = duplicar f (nueva_capacidad * 2) id_memory_stick in
    if leb nueva_capacidad id_memory_stick
    then if ltb (size_max / 2) nueva_capacidad then none else resto
    else some nueva_capacidad

abbrev pub ampliar : List CacheStick → Option ℕ → Option (List CacheStick)
ampliar sticks none = none
ampliar sticks (some nueva_capacidad) =
    if ltb (size_max / tamanio_entrada) nueva_capacidad
    then none
    else some (sticks ++ replicate (nueva_capacidad - length sticks) inicializar_entrada)

-- Each round makes the capacity larger, so `id_memory_stick` rounds and the last test are enough.
unfoldable pub asegurar_capacidad : List CacheStick → ℕ → Option (List CacheStick)
unfolding inicializar_entrada
asegurar_capacidad sticks id_memory_stick =
    if ltb cpu_memory_stick_id_max id_memory_stick
    then none
    else if ltb id_memory_stick (length sticks)
    then some sticks
    else ampliar sticks (
        duplicar (suc id_memory_stick) (if length sticks == 0 then 4 else length sticks)
          id_memory_stick)

unfoldable pub cpu_memory_sticks_inicializar : ℤ → ℕ → RegistroSticks
cpu_memory_sticks_inicializar socket_kernel_memory cpu_id = record {
  socket_kernel_memory = socket_kernel_memory;
  cpu_id = cpu_id;
  sticks = [];
}

-- The connections of the entries are closed.
unfoldable pub cpu_memory_sticks_destruir : RegistroSticks → RegistroSticks
cpu_memory_sticks_destruir r = record r { sticks = [] }

abbrev pub con_socket : RegistroSticks → ℕ → ℤ → Option CacheStick → RegistroSticks
con_socket r id_memory_stick socket none = r
con_socket r id_memory_stick socket (some entrada) = record r {
  sticks = set r.sticks id_memory_stick (record entrada { socket = socket });
}

abbrev pub registrar_en : RegistroSticks → ℕ → ℤ → Option (List CacheStick) → Option RegistroSticks
registrar_en r id_memory_stick socket none = none
registrar_en r id_memory_stick socket (some sticks) = some (
    con_socket (record r { sticks = sticks }) id_memory_stick socket
      (get_elem? sticks id_memory_stick))

-- `none` is false, and the registry stays.
unfoldable pub cpu_memory_sticks_registrar_socket : RegistroSticks → ℕ → ℤ → Option RegistroSticks
cpu_memory_sticks_registrar_socket r id_memory_stick socket =
    if abierto socket
    then registrar_en r id_memory_stick socket (asegurar_capacidad r.sticks id_memory_stick)
    else none

abbrev pub invalidar : RegistroSticks → ℕ → ℤ → Option CacheStick → RegistroSticks
invalidar r id_memory_stick socket none = r
invalidar r id_memory_stick socket (some entrada) =
    if int_eq entrada.socket socket
    then record r { sticks = set r.sticks id_memory_stick (record entrada { socket = menos_uno }) }
    else r

unfoldable pub cpu_memory_sticks_invalidar_socket : RegistroSticks → ℕ → ℤ → RegistroSticks
cpu_memory_sticks_invalidar_socket r id_memory_stick socket =
    invalidar r id_memory_stick socket (get_elem? r.sticks id_memory_stick)
