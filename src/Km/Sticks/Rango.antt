-- ===== src/Km/Sticks/Rango.antt =====
-- The sticks share out the physical addresses.
use ssoo.Common.{
  ℕ, ◌+◌, ◌-◌, ◌≤◌, ◌<◌, ◌≡◌, refl, sym, ◌∙◌, ◌⊎◌, inl, inr, none, some, List, [], ◌∷◌, ◌++◌, All,
  ltb, true, Bool-cases, u32, u32_mod, arith,
}
use ssoo.Km.Sticks.{MemoryStick, ms_para_direccion, memoria_total_desde, memoria_total, nuevo_stick}

-- The sticks hold consecutive ranges from `inicio` to `fin`, all of at least a byte.
abbrev pub Contiguos : ℕ → List MemoryStick → ℕ → Type 0
Contiguos inicio [] fin = fin ≡ inicio
Contiguos inicio (ms ∷ sticks) fin =
    (ms.offset_global ≡ inicio) × (0 < ms.tamanio) × Contiguos (inicio + ms.tamanio) sticks fin

abbrev pub Activos : List MemoryStick → Type 0
Activos = All (λ ms. ms.activo ≡ true)

pub Contiguos-le :
    (inicio : ℕ) (sticks : List MemoryStick) (fin : ℕ) → Contiguos inicio sticks fin → inicio ≤ fin
Contiguos-le inicio [] fin c = omega arith
Contiguos-le inicio (ms ∷ sticks) fin (o, t, c) =
    omega (arith, Contiguos-le (inicio + ms.tamanio) sticks fin c)

memoria_total_desde-Contiguos :
    (inicio : ℕ) (sticks : List MemoryStick) (fin : ℕ)
    → Contiguos inicio sticks fin
    → fin < u32_mod
    → memoria_total_desde inicio sticks ≡ fin
unfolding memoria_total_desde
memoria_total_desde-Contiguos inicio [] fin c h = sym c
memoria_total_desde-Contiguos inicio (ms ∷ sticks) fin (o, t, c) h =
    let l = Contiguos-le (inicio + ms.tamanio) sticks fin c in
    rw (juntos l) (memoria_total_desde-Contiguos (inicio + ms.tamanio) sticks fin c h)
  where
    juntos : inicio + ms.tamanio ≤ fin → u32 (inicio + ms.tamanio) ≡ inicio + ms.tamanio
    juntos l = omega arith

pub memoria_total-Contiguos :
    (sticks : List MemoryStick) (fin : ℕ)
    → Contiguos 0 sticks fin
    → fin < u32_mod
    → memoria_total sticks ≡ fin
unfolding memoria_total
memoria_total-Contiguos sticks fin c h = memoria_total_desde-Contiguos 0 sticks fin c h

Contiguos-append :
    (inicio : ℕ) (sticks : List MemoryStick) (fin : ℕ) (ms : MemoryStick)
    → Contiguos inicio sticks fin
    → ms.offset_global ≡ fin
    → 0 < ms.tamanio
    → Contiguos inicio (sticks ++ ms ∷ []) (fin + ms.tamanio)
Contiguos-append inicio [] fin ms c o t = (o ∙ c, t, omega arith)
Contiguos-append inicio (s ∷ sticks) fin ms (o', t', c) o t =
    (o', t', Contiguos-append (inicio + s.tamanio) sticks fin ms c o t)

-- A stick that is accepted is put behind the others, and the ranges stay consecutive, with a total
-- that fits 32 bits; one is refused exactly when the total would not.
pub nuevo_stick-Contiguos :
    (next_ms_id fd tamanio ipv4 puerto fin : ℕ) (sticks : List MemoryStick)
    → 0 < tamanio
    → tamanio < u32_mod
    → Contiguos 0 sticks fin
    → fin < u32_mod
    → ((u32_mod ≤ fin + tamanio) × (nuevo_stick next_ms_id fd tamanio ipv4 puerto sticks ≡ none))
      ⊎ ((ms : MemoryStick) × (nuevo_stick next_ms_id fd tamanio ipv4 puerto sticks ≡ some ms)
          × (ms.activo ≡ true)
          × (fin + tamanio < u32_mod)
          × Contiguos 0 (sticks ++ ms ∷ []) (fin + tamanio))
unfolding nuevo_stick
nuevo_stick-Contiguos n fd t ip p fin sticks pos_t t_cabe c h =
    rw (memoria_total-Contiguos sticks fin c h) (elim (Bool-cases (ltb (4294967295 - t) fin)) [
      | inl e ↦ inl (ground (arith, e), rw e)
      | inr e ↦
          inr
            (nuevo, rw e, refl, ground (arith, e), Contiguos-append 0 sticks fin nuevo c refl pos_t)
    ])
  where
    nuevo : MemoryStick
    nuevo = record {
      id = n;
      fd = fd;
      tamanio = t;
      offset_global = fin;
      ipv4 = ip;
      puerto = p;
      activo = true;
    }

-- Every address of the ranges belongs to exactly the stick that the search finds, while all sticks
-- are connected.
pub ms_para_direccion-Contiguos :
    (inicio : ℕ) (sticks : List MemoryStick) (fin dir : ℕ)
    → Contiguos inicio sticks fin
    → Activos sticks
    → inicio ≤ dir
    → dir < fin
    → (ms : MemoryStick) × (ms_para_direccion dir sticks ≡ some (ms, dir - ms.offset_global))
      × (ms.offset_global ≤ dir)
      × (dir < ms.offset_global + ms.tamanio)
unfolding ms_para_direccion
ms_para_direccion-Contiguos inicio [] fin dir c a l h = absurd (omega arith)
ms_para_direccion-Contiguos inicio (ms ∷ sticks) fin dir (o, t, c) (a, acts) l h =
    elim (Bool-cases (ltb dir (inicio + ms.tamanio))) [
      | inl e ↦ (ms, ground (arith, e, o, a, l), omega arith, ground (arith, e, o, l))
      | inr e ↦
          let (ms', f, g, k) =
            ms_para_direccion-Contiguos (inicio + ms.tamanio) sticks fin dir c acts
              (ground (arith, e)) h in
          (ms', ground (arith, e, o, f), g, k)
    ]
