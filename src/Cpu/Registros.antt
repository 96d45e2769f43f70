-- ===== src/Cpu/Registros.antt =====
-- Access to the registers by name: cpu/src/cpu_registros.c. `none` is the result false.
pub mod Acceso
pub mod Nombres
use ssoo.Common.{ℕ, Option, none, some, Texto, codes, strcmp, if◌then◌else◌, u8, ◌==◌, ◌||◌}
use ssoo.Utils.Contexto.{RegistrosCpu}

unfoldable pub inicializar_registros_cpu : RegistrosCpu
inicializar_registros_cpu = record {
  pc = 0;
  ax = 0;
  bx = 0;
  cx = 0;
  dx = 0;
  eax = 0;
  ebx = 0;
  ecx = 0;
  edx = 0;
  si = 0;
  di = 0;
}

unfoldable pub leer_valor_registro_cpu : RegistrosCpu → Texto → Option ℕ
leer_valor_registro_cpu r nombre =
    if strcmp nombre (codes "AX")
    then some r.ax
    else if strcmp nombre (codes "BX")
    then some r.bx
    else if strcmp nombre (codes "CX")
    then some r.cx
    else if strcmp nombre (codes "DX")
    then some r.dx
    else if strcmp nombre (codes "EAX")
    then some r.eax
    else if strcmp nombre (codes "EBX")
    then some r.ebx
    else if strcmp nombre (codes "ECX")
    then some r.ecx
    else if strcmp nombre (codes "EDX")
    then some r.edx
    else if strcmp nombre (codes "SI")
    then some r.si
    else if strcmp nombre (codes "DI")
    then some r.di
    else if strcmp nombre (codes "PC")
    then some r.pc
    else none

unfoldable pub tamanio_registro_cpu : Texto → Option ℕ
tamanio_registro_cpu nombre =
    if strcmp nombre (codes "AX")
      || (strcmp nombre (codes "BX") || (strcmp nombre (codes "CX") || strcmp nombre (codes "DX")))
    then some 1
    else if strcmp nombre (codes "EAX")
        || (strcmp nombre (codes "EBX")
            || (strcmp nombre (codes "ECX")
                || (strcmp nombre (codes "EDX")
                    || (strcmp nombre (codes "SI")
                        || (strcmp nombre (codes "DI") || strcmp nombre (codes "PC"))))))
    then some 4
    else none

-- The registers of 32 bits.
escribir_32 : RegistrosCpu → Texto → ℕ → Option RegistrosCpu
escribir_32 r nombre valor =
    if strcmp nombre (codes "EAX")
    then some (record r { eax = valor })
    else if strcmp nombre (codes "EBX")
    then some (record r { ebx = valor })
    else if strcmp nombre (codes "ECX")
    then some (record r { ecx = valor })
    else if strcmp nombre (codes "EDX")
    then some (record r { edx = valor })
    else if strcmp nombre (codes "SI")
    then some (record r { si = valor })
    else if strcmp nombre (codes "DI")
    then some (record r { di = valor })
    else if strcmp nombre (codes "PC")
    then some (record r { pc = valor })
    else none

-- The registers of 8 bits; a name that is none of them goes on to those of 32 bits.
escribir_8 : RegistrosCpu → Texto → ℕ → Option RegistrosCpu
unfolding escribir_32
escribir_8 r nombre valor =
    if strcmp nombre (codes "AX")
    then some (record r { ax = u8 valor })
    else if strcmp nombre (codes "BX")
    then some (record r { bx = u8 valor })
    else if strcmp nombre (codes "CX")
    then some (record r { cx = u8 valor })
    else if strcmp nombre (codes "DX")
    then some (record r { dx = u8 valor })
    else escribir_32 r nombre valor

unfoldable pub escribir_valor_registro_cpu : RegistrosCpu → Texto → ℕ → Option RegistrosCpu
unfolding escribir_8 escribir_32
escribir_valor_registro_cpu r nombre valor = elim (tamanio_registro_cpu nombre) [
  | none ↦ none
  | some tamanio ↦ if tamanio == 1 then escribir_8 r nombre valor else escribir_32 r nombre valor
]
