-- ===== src/Cpu/MemorySticks/Conexion.antt =====
-- The sticks that a CPU asks Kernel Memory for and connects to: cpu/src/cpu_memory_sticks.c.
use ssoo.Common.{
  ℕ, ◌+◌, Option, none, some, List, length, leb, ltb, ◌==◌, ◌&&◌, if◌then◌else◌, htonl, ntohl,
  uint32_max, Bool, ℤ, pos, negsuc, menos_uno,
}
use ssoo.Utils.Mensaje.{Mensaje, ◌>>=◌}
use ssoo.Utils.Protocolo.{
  msg_ok, msg_cpu_identificacion, msg_solicitar_memory_stick, msg_memory_stick_endpoint,
  msg_solicitar_memory_stick_direccion,
}
use ssoo.MemoryStick.{respuesta, identificar_cpu}
use ssoo.Cpu.MemorySticks.Tabla.{cpu_memory_stick_id_max, RegistroSticks, abierto}

pub record Endpoint : Type 0 where
  pub id_memory_stick : ℕ
  pub ipv4 : ℕ
  pub puerto : ℕ
  pub base_global : ℕ
  pub tamanio : ℕ

-- What stands outside of the CPU: the answers on the connection with Kernel Memory (`none` where it
-- is closed), the connection that the system opens to an address and port, and the stick at the
-- other end of a connection (`none` where it is closed).
pub record Entorno : Type 0 where
  pub responde_km : Mensaje → Option Mensaje
  pub conectar_a_servidor : ℕ → ℕ → ℤ
  pub destino : ℕ → Option ℕ

unfoldable pub rango_valido : ℕ → ℕ → Bool
rango_valido base_global tamanio = ltb 0 tamanio && leb (base_global + tamanio) (uint32_max + 1)

unfoldable pub leer_endpoint : List ℕ → Option Endpoint
leer_endpoint p = do
  (id_memory_stick, p₁) ← ntohl p
  (ipv4, p₂) ← ntohl p₁
  (puerto, p₃) ← ntohl p₂
  (base_global, p₄) ← ntohl p₃
  (tamanio, p₅) ← ntohl p₄
  some (record {
    id_memory_stick = id_memory_stick;
    ipv4 = ipv4;
    puerto = puerto;
    base_global = base_global;
    tamanio = tamanio;
  })

abbrev pub aceptar_endpoint : Option Endpoint → Option Endpoint
aceptar_endpoint none = none
aceptar_endpoint (some e) =
    if leb e.id_memory_stick cpu_memory_stick_id_max
      && (leb e.puerto 65535 && rango_valido e.base_global e.tamanio)
    then some e
    else none

unfoldable pub endpoint_a_host : List ℕ → Option Endpoint
endpoint_a_host endpoint_red = aceptar_endpoint (leer_endpoint endpoint_red)

-- `none` as an argument is the NULL of `recibir_mensaje`.
unfoldable pub recibir_endpoint : Option Mensaje → Option Endpoint
recibir_endpoint none = none
recibir_endpoint (some msg) =
    if msg.op_code == msg_memory_stick_endpoint && length msg.payload == 20
    then endpoint_a_host msg.payload
    else none

abbrev pub si_cumple : (Endpoint → Bool) → Option Endpoint → Option Endpoint
si_cumple prueba none = none
si_cumple prueba (some e) = if prueba e then some e else none

unfoldable pub solicitar_endpoint_por_id : Entorno → RegistroSticks → ℕ → Option Endpoint
solicitar_endpoint_por_id env r id_memory_stick =
    if abierto r.socket_kernel_memory
    then si_cumple (λ e. e.id_memory_stick == id_memory_stick)
        (recibir_endpoint
          (env.responde_km (respuesta msg_solicitar_memory_stick (htonl id_memory_stick))))
    else none

unfoldable pub solicitar_endpoint_por_direccion : Entorno → RegistroSticks → ℕ → Option Endpoint
solicitar_endpoint_por_direccion env r direccion_fisica =
    if abierto r.socket_kernel_memory
    then si_cumple
        (λ e.
          leb e.base_global direccion_fisica && ltb direccion_fisica (e.base_global + e.tamanio))
        (recibir_endpoint (
          env.responde_km
            (respuesta msg_solicitar_memory_stick_direccion (htonl direccion_fisica))))
    else none

-- What the stick answers to the identification of the CPU.
abbrev pub saludo_de : ℕ → Option ℕ → Option Mensaje
saludo_de cpu_id none = none
saludo_de cpu_id (some stick) =
    some (identificar_cpu (respuesta msg_cpu_identificacion (htonl cpu_id)))

abbrev pub saludo : Entorno → ℕ → ℤ → Option Mensaje
saludo env cpu_id (negsuc n) = none
saludo env cpu_id (pos c) = saludo_de cpu_id (env.destino c)

abbrev pub tras_saludo : ℤ → Option Mensaje → ℤ
tras_saludo socket none = menos_uno
tras_saludo socket (some msg) = if msg.op_code == msg_ok then socket else menos_uno

unfoldable pub conectar_endpoint : Entorno → ℕ → Endpoint → ℤ
conectar_endpoint env cpu_id e =
    let socket = env.conectar_a_servidor e.ipv4 e.puerto in
    if e.puerto == 0
    then menos_uno
    else if abierto socket
    then tras_saludo socket (saludo env cpu_id socket)
    else menos_uno
