-- ===== src/Km/Endpoints/Busqueda.antt =====
-- The sticks that Kernel Memory finds by id and by address.
use ssoo.Common.{
  ℕ, ◌+◌, ◌-◌, ◌≤◌, ◌<◌, ◌≡◌, ◌≢◌, Option, none, some, List, [], ◌∷◌, All, leb, ltb, ◌==◌, ◌&&◌,
  if◌then◌else◌, Bool-cases, inl, inr, subst, arith,
}
use ssoo.Km.Sticks.{MemoryStick, ms_para_direccion}
use ssoo.Km.Sticks.Rango.{Contiguos, Contiguos-le, Activos}
use ssoo.Km.Endpoints.{completar_endpoint, endpoint_por_id, endpoint_por_direccion}

unfoldable pub stick_por_id : ℕ → List MemoryStick → Option MemoryStick
stick_por_id id [] = none
stick_por_id id (ms ∷ sticks) = if ms.activo && ms.id == id then some ms else stick_por_id id sticks

-- No two sticks have one id.
abbrev pub Distintos : List MemoryStick → Type 0
Distintos [] = Unit {0}
Distintos (ms ∷ sticks) = All (λ otro. otro.id ≢ ms.id) sticks × Distintos sticks

pub endpoint_por_id-stick :
    (id : ℕ) (sticks : List MemoryStick) (ms : MemoryStick)
    → stick_por_id id sticks ≡ some ms
    → endpoint_por_id id sticks ≡ some (completar_endpoint ms)
unfolding endpoint_por_id stick_por_id
endpoint_por_id-stick id [] ms h = absurd (cc)
endpoint_por_id-stick id (s ∷ sticks) ms h = ground (arith, endpoint_por_id-stick id sticks ms)

pub endpoint_por_direccion-stick :
    (dir d : ℕ) (sticks : List MemoryStick) (ms : MemoryStick)
    → ms_para_direccion dir sticks ≡ some (ms, d)
    → endpoint_por_direccion dir sticks ≡ some (completar_endpoint ms)
unfolding endpoint_por_direccion ms_para_direccion
endpoint_por_direccion-stick dir d [] ms h = absurd (cc)
endpoint_por_direccion-stick dir d (s ∷ sticks) ms h =
    ground (arith, endpoint_por_direccion-stick dir d sticks ms)

module _ {ℓ} (P : MemoryStick → Type ℓ) where
  pub stick_por_id-All :
      (id : ℕ) (sticks : List MemoryStick) (ms : MemoryStick)
      → stick_por_id id sticks ≡ some ms
      → All P sticks
      → P ms
  unfolding stick_por_id
  stick_por_id-All id [] ms h a = absurd (cc)
  stick_por_id-All id (s ∷ sticks) ms h (p, a) = elim (Bool-cases (s.activo && s.id == id)) [
    | inl e ↦ subst P (ground (arith, h, e)) p
    | inr e ↦ stick_por_id-All id sticks ms (ground (arith, h, e)) a
  ]

  pub ms_para_direccion-All :
      (dir d : ℕ) (sticks : List MemoryStick) (ms : MemoryStick)
      → ms_para_direccion dir sticks ≡ some (ms, d)
      → All P sticks
      → P ms
  unfolding ms_para_direccion
  ms_para_direccion-All dir d [] ms h a = absurd (cc)
  ms_para_direccion-All dir d (s ∷ sticks) ms h (p, a) =
      elim (Bool-cases
        (s.activo && (leb s.offset_global dir && ltb (dir - s.offset_global) s.tamanio))) [
          | inl e ↦ subst P (ground (arith, h, e)) p
          | inr e ↦ ms_para_direccion-All dir d sticks ms (ground (arith, h, e)) a
        ]

pub stick_por_id-id :
    (id : ℕ) (sticks : List MemoryStick) (ms : MemoryStick)
    → stick_por_id id sticks ≡ some ms
    → ms.id ≡ id
unfolding stick_por_id
stick_por_id-id id [] ms h = absurd (cc)
stick_por_id-id id (s ∷ sticks) ms h = ground (arith, stick_por_id-id id sticks ms)

-- The stick that an address finds is the one that its id finds.
pub ms_para_direccion-stick_por_id :
    (dir d : ℕ) (sticks : List MemoryStick) (ms : MemoryStick)
    → Activos sticks
    → Distintos sticks
    → ms_para_direccion dir sticks ≡ some (ms, d)
    → stick_por_id ms.id sticks ≡ some ms
unfolding ms_para_direccion stick_por_id
ms_para_direccion-stick_por_id dir d [] ms a u h = absurd (cc)
ms_para_direccion-stick_por_id dir d (s ∷ sticks) ms (act, a) (n, u) h =
    elim (Bool-cases (leb s.offset_global dir && ltb (dir - s.offset_global) s.tamanio)) [
      | inl e ↦ ground (arith, h, act, e)
      | inr e ↦
          let q : ms_para_direccion dir sticks ≡ some (ms, d) = ground (arith, h, e) in
          otro (ms_para_direccion-All (λ t. t.id ≢ s.id) dir d sticks ms q n)
            (ms_para_direccion-stick_por_id dir d sticks ms a u q)
    ]
  where
    otro :
        ms.id ≢ s.id
        → stick_por_id ms.id sticks ≡ some ms
        → (if s.activo && s.id == ms.id then some s else stick_por_id ms.id sticks) ≡ some ms
    otro k e = ground (arith, k, e)

-- The stick of an id is the one that its addresses find, and lies within the memory.
pub stick_por_id-Contiguos :
    (inicio id : ℕ) (sticks : List MemoryStick) (fin : ℕ) (ms : MemoryStick)
    → Contiguos inicio sticks fin
    → Activos sticks
    → stick_por_id id sticks ≡ some ms
    → (inicio ≤ ms.offset_global)
      × (0 < ms.tamanio)
      × (ms.offset_global + ms.tamanio ≤ fin)
      × ((dir : ℕ)
          → ms.offset_global ≤ dir
          → dir < ms.offset_global + ms.tamanio
          → ms_para_direccion dir sticks ≡ some (ms, dir - ms.offset_global))
unfolding stick_por_id ms_para_direccion
stick_por_id-Contiguos inicio id [] fin ms c a h = absurd (cc)
stick_por_id-Contiguos inicio id (s ∷ sticks) fin ms (o, t, c) (act, a) h =
    let l = Contiguos-le (inicio + s.tamanio) sticks fin c in
    elim (Bool-cases (s.id == id)) [
      | inl e ↦
          let q : s ≡ ms = ground (arith, h, act, e) in
          subst
            (λ (m : MemoryStick).
              (inicio ≤ m.offset_global)
              × (0 < m.tamanio)
              × (m.offset_global + m.tamanio ≤ fin)
              × ((dir : ℕ)
                  → m.offset_global ≤ dir
                  → dir < m.offset_global + m.tamanio
                  → ms_para_direccion dir (s ∷ sticks) ≡ some (m, dir - m.offset_global)))
            q (omega arith, t, omega arith, λ dir j k. ground (arith, act, j, k))
      | inr e ↦
          let q : stick_por_id id sticks ≡ some ms = ground (arith, h, e) in
          let (i, p, f, g) = stick_por_id-Contiguos (inicio + s.tamanio) id sticks fin ms c a q in
          (omega (arith, i), p, f, λ dir j k. ground (arith, o, i, j, k, g dir))
    ]
