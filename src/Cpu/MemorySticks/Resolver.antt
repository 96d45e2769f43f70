-- ===== src/Cpu/MemorySticks/Resolver.antt =====
-- The stick for an id or an address, from the table or from Kernel Memory:
-- cpu/src/cpu_memory_sticks.c.
use ssoo.Common.{
  ℕ, suc, ◌+◌, Option, none, some, List, [], ◌∷◌, get_elem?, set, leb, ltb, ◌&&◌, if◌then◌else◌,
  Bool, true, ℤ,
}
use ssoo.Cpu.MemorySticks.Tabla.{
  cpu_memory_stick_id_max, CacheStick, RegistroSticks, abierto, asegurar_capacidad,
}
use ssoo.Cpu.MemorySticks.Conexion.{
  Endpoint, Entorno, solicitar_endpoint_por_id, solicitar_endpoint_por_direccion, conectar_endpoint,
}

pub record StickResuelto : Type 0 where
  pub id_memory_stick : ℕ
  pub base_global : ℕ
  pub tamanio : ℕ
  pub socket : ℤ
  pub rango_conocido : Bool

unfoldable pub copiar_cache : ℕ → CacheStick → StickResuelto
copiar_cache id_memory_stick entrada = record {
  id_memory_stick = id_memory_stick;
  base_global = entrada.base_global;
  tamanio = entrada.tamanio;
  socket = entrada.socket;
  rango_conocido = entrada.rango_conocido;
}

-- The entry with the range of the endpoint and the connection `socket`.
abbrev pub con_rango : Endpoint → ℤ → CacheStick
con_rango e socket = record {
  socket = socket;
  base_global = e.base_global;
  tamanio = e.tamanio;
  rango_conocido = true;
}

abbrev pub guardar_en : RegistroSticks → ℕ → CacheStick → RegistroSticks × Option StickResuelto
guardar_en r id_memory_stick entrada = (
  record r { sticks = set r.sticks id_memory_stick entrada },
  if abierto entrada.socket then some (copiar_cache id_memory_stick entrada) else none,
)

abbrev pub cachear_entrada :
    Entorno → RegistroSticks → Endpoint → Option CacheStick → RegistroSticks × Option StickResuelto
cachear_entrada env r e none = (r, none)
cachear_entrada env r e (some entrada) = guardar_en r e.id_memory_stick (
    con_rango e
      (if abierto entrada.socket then entrada.socket else conectar_endpoint env r.cpu_id e))

abbrev pub cachear_con :
    Entorno
    → RegistroSticks
    → Endpoint
    → Option (List CacheStick)
    → RegistroSticks × Option StickResuelto
cachear_con env r e none = (r, none)
cachear_con env r e (some sticks) =
    cachear_entrada env (record r { sticks = sticks }) e (get_elem? sticks e.id_memory_stick)

unfoldable pub cachear_endpoint :
    Entorno → RegistroSticks → Endpoint → RegistroSticks × Option StickResuelto
cachear_endpoint env r e = cachear_con env r e (asegurar_capacidad r.sticks e.id_memory_stick)

-- A connection that was made before the endpoints were known.
abbrev pub respaldo : ℕ → Option CacheStick → Option StickResuelto
respaldo id_memory_stick none = none
respaldo id_memory_stick (some cache) =
    if abierto cache.socket then some (copiar_cache id_memory_stick cache) else none

abbrev pub tras_solicitud :
    Entorno
    → RegistroSticks
    → ℕ
    → Option CacheStick
    → Option Endpoint
    → RegistroSticks × Option StickResuelto
tras_solicitud env r id_memory_stick cache none = (r, respaldo id_memory_stick cache)
tras_solicitud env r id_memory_stick cache (some e) = cachear_endpoint env r e

abbrev pub con_cache :
    Entorno → RegistroSticks → ℕ → Option CacheStick → RegistroSticks × Option StickResuelto
con_cache env r id_memory_stick none =
    tras_solicitud env r id_memory_stick none (solicitar_endpoint_por_id env r id_memory_stick)
con_cache env r id_memory_stick (some cache) =
    if abierto cache.socket && cache.rango_conocido
    then (r, some (copiar_cache id_memory_stick cache))
    else tras_solicitud env r id_memory_stick (some cache)
        (solicitar_endpoint_por_id env r id_memory_stick)

unfoldable pub cpu_memory_sticks_resolver_id :
    Entorno → RegistroSticks → ℕ → RegistroSticks × Option StickResuelto
cpu_memory_sticks_resolver_id env r id_memory_stick =
    if ltb cpu_memory_stick_id_max id_memory_stick
    then (r, none)
    else con_cache env r id_memory_stick (get_elem? r.sticks id_memory_stick)

-- The search of the cache for an address, from the entry `i` on.
unfoldable pub buscar_en_cache : ℕ → List CacheStick → ℕ → Option StickResuelto
buscar_en_cache i [] direccion_fisica = none
buscar_en_cache i (entrada ∷ sticks) direccion_fisica =
    if abierto entrada.socket
      && (entrada.rango_conocido
          && (leb entrada.base_global direccion_fisica
              && ltb direccion_fisica (entrada.base_global + entrada.tamanio)))
    then some (copiar_cache i entrada)
    else buscar_en_cache (suc i) sticks direccion_fisica

abbrev pub cachear_si :
    Entorno → RegistroSticks → Option Endpoint → RegistroSticks × Option StickResuelto
cachear_si env r none = (r, none)
cachear_si env r (some e) = cachear_endpoint env r e

abbrev pub con_hallado :
    Entorno → RegistroSticks → ℕ → Option StickResuelto → RegistroSticks × Option StickResuelto
con_hallado env r direccion_fisica (some stick) = (r, some stick)
con_hallado env r direccion_fisica none =
    cachear_si env r (solicitar_endpoint_por_direccion env r direccion_fisica)

unfoldable pub cpu_memory_sticks_resolver_direccion :
    Entorno → RegistroSticks → ℕ → RegistroSticks × Option StickResuelto
cpu_memory_sticks_resolver_direccion env r direccion_fisica =
    con_hallado env r direccion_fisica (buscar_en_cache 0 r.sticks direccion_fisica)
