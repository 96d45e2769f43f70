-- ===== src/Cpu/MemorySticks/Fidelidad.antt =====
-- When the table of a CPU agrees with Kernel Memory, and what an endpoint tells it.
use ssoo.Common.{
  ℕ, ◌+◌, ◌-◌, ◌≤◌, ◌<◌, ◌≡◌, sym, some, List, [], ◌++◌, All, length, length-htonl, get_elem?,
  ntohl-htonl, u32_mod, true, pos, htonl, append-nil, arith,
}
use ssoo.Utils.Mensaje.{Mensaje}
use ssoo.Utils.Protocolo.{msg_memory_stick_endpoint}
use ssoo.MemoryStick.{respuesta, identificar_cpu}
use ssoo.Km.Sticks.{MemoryStick, ms_para_direccion}
use ssoo.Km.Sticks.Rango.{Contiguos, Activos}
use ssoo.Km.Endpoints.{completar_endpoint, solicitar_stick}
use ssoo.Km.Endpoints.Busqueda.{
  stick_por_id, Distintos, endpoint_por_id-stick, endpoint_por_direccion-stick, stick_por_id-All,
  ms_para_direccion-stick_por_id, stick_por_id-Contiguos,
}
use ssoo.Cpu.MemorySticks.Tabla.{CacheStick, RegistroSticks}
use ssoo.Cpu.MemorySticks.Conexion.{
  Endpoint, Entorno, leer_endpoint, endpoint_a_host, rango_valido, recibir_endpoint,
  solicitar_endpoint_por_id, solicitar_endpoint_por_direccion, conectar_endpoint,
}
use ssoo.Cpu.MemorySticks.Resolver.{StickResuelto}

-- The system connects the CPU to the stick at the address and port that it announced.
pub record Conectable (env : Entorno) (ms : MemoryStick) : Type 0 where
  pub id_cabe : ms.id ≤ 4096
  pub ipv4_cabe : ms.ipv4 < u32_mod
  pub puerto_pos : 0 < ms.puerto
  pub puerto_cabe : ms.puerto ≤ 65535
  pub fd : ℕ
  pub conecta : env.conectar_a_servidor ms.ipv4 ms.puerto ≡ pos fd
  pub lleva : env.destino fd ≡ some ms.fd

-- Kernel Memory answers from a table of connected sticks with consecutive ranges.
pub record Publicada (env : Entorno) (sticks : List MemoryStick) (fin : ℕ) : Type 0 where
  pub contiguos : Contiguos 0 sticks fin
  pub activos : Activos sticks
  pub fin_cabe : fin < u32_mod
  pub distintos : Distintos sticks
  pub conexiones : All (Conectable env) sticks
  pub responde : (m : Mensaje) → env.responde_km m ≡ solicitar_stick sticks m

-- An open connection of the entry `i` leads to the stick with that id, and a range that is known
-- is that stick's.
pub record Conoce (env : Entorno) (sticks : List MemoryStick) (i : ℕ) (e : CacheStick) (c : ℕ)
    : Type 0 where
  pub ms : MemoryStick
  pub por_id : stick_por_id i sticks ≡ some ms
  pub lleva : env.destino c ≡ some ms.fd
  pub rango :
      e.rango_conocido ≡ true → (e.base_global ≡ ms.offset_global) × (e.tamanio ≡ ms.tamanio)

abbrev pub EntradaFiel : Entorno → List MemoryStick → ℕ → CacheStick → Type 0
EntradaFiel env sticks i e = (c : ℕ) → e.socket ≡ pos c → Conoce env sticks i e c

abbrev pub TablaFiel : Entorno → List MemoryStick → List CacheStick → Type 0
TablaFiel env sticks xs =
    (i : ℕ) (e : CacheStick) → get_elem? xs i ≡ some e → EntradaFiel env sticks i e

pub record RegistroFiel (env : Entorno) (sticks : List MemoryStick) (r : RegistroSticks)
    : Type 0 where
  pub km : ℕ
  pub con_km : r.socket_kernel_memory ≡ pos km
  pub tope : length r.sticks ≤ 8192
  pub entradas : TablaFiel env sticks r.sticks

-- A resolved stick is one of Kernel Memory's, with its range and a connection to it.
pub record EsStick (env : Entorno) (sticks : List MemoryStick) (s : StickResuelto) : Type 0 where
  pub ms : MemoryStick
  pub fd : ℕ
  pub por_id : stick_por_id s.id_memory_stick sticks ≡ some ms
  pub conexion : s.socket ≡ pos fd
  pub lleva : env.destino fd ≡ some ms.fd
  pub conocido : s.rango_conocido ≡ true
  pub base : s.base_global ≡ ms.offset_global
  pub mide : s.tamanio ≡ ms.tamanio

-- What a CPU reads in the endpoint of a stick.
abbrev pub endpoint_de : MemoryStick → Endpoint
endpoint_de ms = record {
  id_memory_stick = ms.id;
  ipv4 = ms.ipv4;
  puerto = ms.puerto;
  base_global = ms.offset_global;
  tamanio = ms.tamanio;
}

leer-completar_endpoint :
    (ms : MemoryStick)
    → ms.id < u32_mod
    → ms.ipv4 < u32_mod
    → ms.puerto < u32_mod
    → ms.offset_global < u32_mod
    → ms.tamanio < u32_mod
    → leer_endpoint (completar_endpoint ms) ≡ some (endpoint_de ms)
unfolding leer_endpoint completar_endpoint
leer-completar_endpoint ms a b c d e =
    let u : htonl ms.tamanio ≡ htonl ms.tamanio ++ [] = sym (append-nil (htonl ms.tamanio)) in
    rw u (
      rw (
        ntohl-htonl ms.id _ a,
        ntohl-htonl ms.ipv4 _ b,
        ntohl-htonl ms.puerto _ c,
        ntohl-htonl ms.offset_global _ d,
        ntohl-htonl ms.tamanio [] e,
      ))

length-completar_endpoint : (ms : MemoryStick) → length (completar_endpoint ms) ≡ 20
unfolding completar_endpoint htonl
length-completar_endpoint ms = omega arith

-- The endpoint that Kernel Memory sends is accepted, and read as it is.
recibir-completar_endpoint :
    (env : Entorno) (ms : MemoryStick)
    → Conectable env ms
    → 0 < ms.tamanio
    → ms.offset_global + ms.tamanio < u32_mod
    → recibir_endpoint (some (respuesta msg_memory_stick_endpoint (completar_endpoint ms)))
      ≡ some (endpoint_de ms)
unfolding recibir_endpoint endpoint_a_host rango_valido
recibir-completar_endpoint env ms k p h =
    rw
      (
        length-completar_endpoint ms,
        leer-completar_endpoint ms (omega (arith, k.id_cabe)) k.ipv4_cabe
            (omega (arith, k.puerto_cabe)) (omega arith) (omega arith),
      )
      (ground (arith, p, h, k.id_cabe, k.puerto_cabe))

module _ (env : Entorno) (sticks : List MemoryStick) (fin : ℕ) (p : Publicada env sticks fin)
    (r : RegistroSticks) (f : RegistroFiel env sticks r) where
  recibido :
      (id : ℕ) (ms : MemoryStick)
      → stick_por_id id sticks ≡ some ms
      → recibir_endpoint (some (respuesta msg_memory_stick_endpoint (completar_endpoint ms)))
        ≡ some (endpoint_de ms)
  recibido id ms h =
      let (a, t, b, g) = stick_por_id-Contiguos 0 id sticks fin ms p.contiguos p.activos h in
      recibir-completar_endpoint env ms
        (stick_por_id-All (Conectable env) id sticks ms h p.conexiones) t
        (omega (arith, b, p.fin_cabe))

  pub solicitar_endpoint_por_id-stick :
      (id : ℕ) (ms : MemoryStick)
      → id ≤ 4096
      → stick_por_id id sticks ≡ some ms
      → ms.id ≡ id
      → solicitar_endpoint_por_id env r id ≡ some (endpoint_de ms)
  unfolding solicitar_endpoint_por_id solicitar_stick
  solicitar_endpoint_por_id-stick id ms k h e =
      let n : id < u32_mod = omega arith in
      let u : htonl id ≡ htonl id ++ [] = sym (append-nil (htonl id)) in
      rw (f.con_km, p.responde _, length-htonl id, u, ntohl-htonl id [] n)
        (rw (endpoint_por_id-stick id sticks ms h, recibido id ms h) (ground (arith, e)))

  pub solicitar_endpoint_por_direccion-stick :
      (dir : ℕ) (ms : MemoryStick)
      → dir < u32_mod
      → ms_para_direccion dir sticks ≡ some (ms, dir - ms.offset_global)
      → ms.offset_global ≤ dir
      → dir < ms.offset_global + ms.tamanio
      → solicitar_endpoint_por_direccion env r dir ≡ some (endpoint_de ms)
  unfolding solicitar_endpoint_por_direccion solicitar_stick
  solicitar_endpoint_por_direccion-stick dir ms n h a b =
      let u : htonl dir ≡ htonl dir ++ [] = sym (append-nil (htonl dir)) in
      let q =
        ms_para_direccion-stick_por_id dir (dir - ms.offset_global) sticks ms p.activos p.distintos
          h in
      rw (f.con_km, p.responde _, length-htonl dir, u, ntohl-htonl dir [] n)
        (rw
          (
            endpoint_por_direccion-stick dir (dir - ms.offset_global) sticks ms h,
            recibido ms.id ms q,
          )
          (ground (arith, a, b)))

-- The connection to a stick, and the handshake on it, succeed.
pub conectar_endpoint-stick :
    (env : Entorno) (cpu_id : ℕ) (ms : MemoryStick) (k : Conectable env ms)
    → conectar_endpoint env cpu_id (endpoint_de ms) ≡ pos k.fd
unfolding conectar_endpoint identificar_cpu
conectar_endpoint-stick env cpu_id ms k =
    rw (k.conecta, k.lleva, length-htonl cpu_id) (ground (arith, k.puerto_pos))
