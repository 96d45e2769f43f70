-- ===== src/Km/Sticks.antt =====
-- The connected Memory Sticks of kernel_memory/src/main.c, in the order of their connection. Locks
-- are left out: each function runs under the lock that its callers take.
pub mod Rango
use ssoo.Common.{
  ℕ, suc, ◌+◌, ◌-◌, ◌<◌, Option, none, some, List, [], ◌∷◌, ◌++◌, leb, ltb, if◌then◌else◌, u32,
  uint32_max, Bool, true, false, ◌&&◌,
}

pub record MemoryStick : Type 0 where
  pub id : ℕ
  pub fd : ℕ
  pub tamanio : ℕ
  pub offset_global : ℕ
  pub ipv4 : ℕ
  pub puerto : ℕ
  pub activo : Bool

-- A global address to the stick that holds it and the address there.
unfoldable pub ms_para_direccion : ℕ → List MemoryStick → Option (MemoryStick × ℕ)
ms_para_direccion dir [] = none
ms_para_direccion dir (ms ∷ sticks) =
    if ms.activo && (leb ms.offset_global dir && ltb (dir - ms.offset_global) ms.tamanio)
    then some (ms, dir - ms.offset_global)
    else ms_para_direccion dir sticks

memoria_total_desde : ℕ → List MemoryStick → ℕ
memoria_total_desde total [] = total
memoria_total_desde total (ms ∷ sticks) = memoria_total_desde (u32 (total + ms.tamanio)) sticks

unfoldable pub memoria_total : List MemoryStick → ℕ
unfolding memoria_total_desde
memoria_total sticks = memoria_total_desde 0 sticks

-- The stick that a MSG_MEMORY_STICK_IDENTIFICACION adds, when its size and port are accepted; none
-- where the total would pass 32 bits.
unfoldable pub nuevo_stick : ℕ → ℕ → ℕ → ℕ → ℕ → List MemoryStick → Option MemoryStick
nuevo_stick next_ms_id fd tamanio ipv4 puerto sticks =
    let offset = memoria_total sticks in
    if ltb (uint32_max - tamanio) offset
    then none
    else some (record {
      id = next_ms_id;
      fd = fd;
      tamanio = tamanio;
      offset_global = offset;
      ipv4 = ipv4;
      puerto = puerto;
      activo = true;
    })
