-- ===== src/Cpu/Memoria/Tramos.antt =====
-- The stick and the size of one round of the loops of cpu/src/cpu_memoria.c.
use ssoo.Common.{ℕ, ◌+◌, ◌≤◌, ◌<◌, ◌≡◌, refl, Option, List, Bool-cases, inl, inr, true, arith}
use ssoo.Km.Sticks.{MemoryStick}
use ssoo.Cpu.MemorySticks.Tabla.{RegistroSticks}
use ssoo.Cpu.MemorySticks.Conexion.{Entorno}
use ssoo.Cpu.MemorySticks.Resolver.{StickResuelto}
use ssoo.Cpu.MemorySticks.Fidelidad.{Publicada, RegistroFiel, EsStick}
use ssoo.Cpu.MemorySticks.Resuelve.{Resuelta, resolver_direccion-Resuelta}
use ssoo.Cpu.Memoria.{fuera, stick_para, tamanio_fragmento}

pub tamanio_fragmento_bounds :
    (s : StickResuelto) (dir falta : ℕ)
    → s.rango_conocido ≡ true
    → dir < s.base_global + s.tamanio
    → 0 < falta
    → (0 < tamanio_fragmento s dir falta)
      × (tamanio_fragmento s dir falta ≤ falta)
      × (dir + tamanio_fragmento s dir falta ≤ s.base_global + s.tamanio)
unfolding tamanio_fragmento
tamanio_fragmento_bounds s dir falta k h p = ground (arith, k, h, p)

module _ (env : Entorno) (sticks : List MemoryStick) (fin : ℕ) (p : Publicada env sticks fin)
    (r : RegistroSticks) (f : RegistroFiel env sticks r) where
  -- A resolved stick that holds the address.
  pub record Alcanza (dir : ℕ) (o : RegistroSticks × Option StickResuelto) : Type 0 where
    pub resuelta : Resuelta env sticks o
    pub abajo : resuelta.stick.base_global ≤ dir
    pub arriba : dir < resuelta.stick.base_global + resuelta.stick.tamanio

  pub stick_para-Alcanza :
      (s : StickResuelto) (dir : ℕ)
      → EsStick env sticks s
      → dir < fin
      → Alcanza dir (stick_para env r s dir)
  unfolding stick_para
  stick_para-Alcanza s dir es h = elim (Bool-cases (fuera s dir)) [
    | inl e ↦
        let (q, a, b) = resolver_direccion-Resuelta env sticks fin p r f dir h in
        rw e (record { resuelta = q; abajo = a; arriba = b })
    | inr e ↦ rw e (record {
      resuelta = record { registro = r; stick = s; resultado = refl; fiel = f; es_stick = es };
      abajo = ground (arith, e, es.conocido);
      arriba = ground (arith, e, es.conocido);
    })
  ]
