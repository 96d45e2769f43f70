-- ===== src/Cpu/Registros/Nombres.antt =====
-- The registers behind the names: each access by name is an access to one register.
use ssoo.Common.{
  ℕ, ◌≡◌, ◌<◌, ◌^◌, Option, none, some, Texto, codes, strcmp, strcmp→eq, if◌then◌else◌, u8, u32_mod,
  ◌%◌, ◌≢◌, true, arith,
}
use ssoo.Utils.Contexto.{RegistrosCpu, RegistrosEnRango}
use ssoo.Cpu.Registros.{
  leer_valor_registro_cpu, tamanio_registro_cpu, escribir_32, escribir_8,
  escribir_valor_registro_cpu,
}

pub data Registro : Type 0 where
  ax bx cx dx eax ebx ecx edx si di pc : Registro

-- The register of a name.
pub registro : Texto → Option Registro
registro nombre =
    if strcmp nombre (codes "AX")
    then some ax
    else if strcmp nombre (codes "BX")
    then some bx
    else if strcmp nombre (codes "CX")
    then some cx
    else if strcmp nombre (codes "DX")
    then some dx
    else if strcmp nombre (codes "EAX")
    then some eax
    else if strcmp nombre (codes "EBX")
    then some ebx
    else if strcmp nombre (codes "ECX")
    then some ecx
    else if strcmp nombre (codes "EDX")
    then some edx
    else if strcmp nombre (codes "SI")
    then some si
    else if strcmp nombre (codes "DI")
    then some di
    else if strcmp nombre (codes "PC")
    then some pc
    else none

pub valor : RegistrosCpu → Registro → ℕ
valor r ax = r.ax
valor r bx = r.bx
valor r cx = r.cx
valor r dx = r.dx
valor r eax = r.eax
valor r ebx = r.ebx
valor r ecx = r.ecx
valor r edx = r.edx
valor r si = r.si
valor r di = r.di
valor r pc = r.pc

-- The number of values of a register, and its bytes.
pub modulo : Registro → ℕ
modulo ax = 256
modulo bx = 256
modulo cx = 256
modulo dx = 256
modulo _ = u32_mod

pub bytes : Registro → ℕ
bytes ax = 1
bytes bx = 1
bytes cx = 1
bytes dx = 1
bytes _ = 4

abbrev pub map_option : {A B : Type 0} → (A → B) → Option A → Option B
map_option f none = none
map_option f (some a) = some (f a)

-- Reading by name reads the register of that name, or fails if there is none.
pub leer_valor-registro :
    (r : RegistrosCpu) (nombre : Texto)
    → leer_valor_registro_cpu r nombre ≡ map_option (valor r) (registro nombre)
unfolding leer_valor_registro_cpu registro valor
leer_valor-registro r nombre = ground arith

pub tamanio-registro :
    (nombre : Texto) → tamanio_registro_cpu nombre ≡ map_option bytes (registro nombre)
unfolding tamanio_registro_cpu registro bytes
tamanio-registro nombre = ground arith

-- The registers after a write to one of them.
pub poner : RegistrosCpu → ℕ → Registro → RegistrosCpu
poner r v ax = record r { ax = u8 v }
poner r v bx = record r { bx = u8 v }
poner r v cx = record r { cx = u8 v }
poner r v dx = record r { dx = u8 v }
poner r v eax = record r { eax = v }
poner r v ebx = record r { ebx = v }
poner r v ecx = record r { ecx = v }
poner r v edx = record r { edx = v }
poner r v si = record r { si = v }
poner r v di = record r { di = v }
poner r v pc = record r { pc = v }

pub escribir_valor-registro :
    (r : RegistrosCpu) (nombre : Texto) (v : ℕ)
    → escribir_valor_registro_cpu r nombre v ≡ map_option (poner r v) (registro nombre)
unfolding escribir_valor_registro_cpu escribir_8 escribir_32 tamanio_registro_cpu registro poner
escribir_valor-registro r nombre v = ground arith

pub nombre_de : Registro → Texto
nombre_de ax = codes "AX"
nombre_de bx = codes "BX"
nombre_de cx = codes "CX"
nombre_de dx = codes "DX"
nombre_de eax = codes "EAX"
nombre_de ebx = codes "EBX"
nombre_de ecx = codes "ECX"
nombre_de edx = codes "EDX"
nombre_de si = codes "SI"
nombre_de di = codes "DI"
nombre_de pc = codes "PC"

strcmp-nombre_de : (a : Texto) (x : Registro) → registro a ≡ some x → strcmp a (nombre_de x) ≡ true
unfolding registro nombre_de
strcmp-nombre_de a ax h = ground arith
strcmp-nombre_de a bx h = ground arith
strcmp-nombre_de a cx h = ground arith
strcmp-nombre_de a dx h = ground arith
strcmp-nombre_de a eax h = ground arith
strcmp-nombre_de a ebx h = ground arith
strcmp-nombre_de a ecx h = ground arith
strcmp-nombre_de a edx h = ground arith
strcmp-nombre_de a si h = ground arith
strcmp-nombre_de a di h = ground arith
strcmp-nombre_de a pc h = ground arith

pub registro→nombre_de : (a : Texto) (x : Registro) → registro a ≡ some x → a ≡ nombre_de x
registro→nombre_de a x h = strcmp→eq a (nombre_de x) (strcmp-nombre_de a x h)

pub valor-poner :
    (r : RegistrosCpu) (v : ℕ)
    → v < u32_mod
    → (x : Registro) → valor (poner r v x) x ≡ v % (256 ^ bytes x)
unfolding valor poner bytes
valor-poner r v h ax = ground arith
valor-poner r v h bx = ground arith
valor-poner r v h cx = ground arith
valor-poner r v h dx = ground arith
valor-poner r v h eax = ground arith
valor-poner r v h ebx = ground arith
valor-poner r v h ecx = ground arith
valor-poner r v h edx = ground arith
valor-poner r v h si = ground arith
valor-poner r v h di = ground arith
valor-poner r v h pc = ground arith

pub valor-poner_ne :
    (r : RegistrosCpu) (v : ℕ) (x y : Registro) → x ≢ y → valor (poner r v x) y ≡ valor r y
unfolding valor poner
valor-poner_ne r v ax y h = ground arith
valor-poner_ne r v bx y h = ground arith
valor-poner_ne r v cx y h = ground arith
valor-poner_ne r v dx y h = ground arith
valor-poner_ne r v eax y h = ground arith
valor-poner_ne r v ebx y h = ground arith
valor-poner_ne r v ecx y h = ground arith
valor-poner_ne r v edx y h = ground arith
valor-poner_ne r v si y h = ground arith
valor-poner_ne r v di y h = ground arith
valor-poner_ne r v pc y h = ground arith

pub poner-RegistrosEnRango :
    (r : RegistrosCpu) (v : ℕ)
    → v < u32_mod
    → (x : Registro) → RegistrosEnRango r
    → RegistrosEnRango (poner r v x)
unfolding poner
poner-RegistrosEnRango r v h ax e = ground arith
poner-RegistrosEnRango r v h bx e = ground arith
poner-RegistrosEnRango r v h cx e = ground arith
poner-RegistrosEnRango r v h dx e = ground arith
poner-RegistrosEnRango r v h eax e = ground arith
poner-RegistrosEnRango r v h ebx e = ground arith
poner-RegistrosEnRango r v h ecx e = ground arith
poner-RegistrosEnRango r v h edx e = ground arith
poner-RegistrosEnRango r v h si e = ground arith
poner-RegistrosEnRango r v h di e = ground arith
poner-RegistrosEnRango r v h pc e = ground arith
