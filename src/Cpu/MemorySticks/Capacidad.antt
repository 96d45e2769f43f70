-- ===== src/Cpu/MemorySticks/Capacidad.antt =====
-- The table grows far enough and not too far: `asegurar_capacidad` of cpu/src/cpu_memory_sticks.c.
use ssoo.Common.{
  ℕ, zero, suc, ◌*◌, ◌-◌, ◌≤◌, ◌<◌, ◌≡◌, ◌⊎◌, inl, inr, some, List, [], ◌∷◌, ◌++◌, length,
  length-append, length-replicate, get_elem?, replicate, leb, ltb, ◌==◌, if◌then◌else◌, Bool-cases,
  leb→le, ltb→ge, ltb→lt, arith,
}
use ssoo.Cpu.MemorySticks.Tabla.{CacheStick, inicializar_entrada, duplicar, asegurar_capacidad}

duplicar-some :
    (f c id : ℕ)
    → 0 < c
    → c ≤ 8192
    → id ≤ 4096
    → suc id - c < f
    → (n : ℕ) × (duplicar f c id ≡ some n) × (id < n) × (c ≤ n) × (n ≤ 8192)
unfolding duplicar
duplicar-some zero c id p h k l = absurd (omega arith)
duplicar-some (suc f) c id p h k l = elim (Bool-cases (leb c id)) [
  | inl mas ↦
      let (n, e, a, b, d) =
        duplicar-some f (c * 2) id (omega arith) (omega (arith, leb→le c id mas)) k
          (omega (arith, leb→le c id mas)) in
      (n, ground (arith, mas, e, leb→le c id mas), a, omega (arith, b), d)
  | inr basta ↦ (c, rw basta, ground (arith, basta), omega arith, h)
]

get_elem?-replicate : (n i : ℕ) (a e : CacheStick) → get_elem? (replicate n a) i ≡ some e → e ≡ a
get_elem?-replicate zero i a e h = absurd (cc)
get_elem?-replicate (suc n) zero a e h = cc
get_elem?-replicate (suc n) (suc i) a e h = get_elem?-replicate n i a e h

get_elem?-ampliado :
    (xs : List CacheStick) (n i : ℕ) (a e : CacheStick)
    → get_elem? (xs ++ replicate n a) i ≡ some e
    → (get_elem? xs i ≡ some e) ⊎ (e ≡ a)
get_elem?-ampliado [] n i a e h = inr (get_elem?-replicate n i a e h)
get_elem?-ampliado (x ∷ xs) n zero a e h = inl h
get_elem?-ampliado (x ∷ xs) n (suc i) a e h = get_elem?-ampliado xs n i a e h

-- Room for an id: every entry of the new table is one of the old at the same place, or fresh.
pub record Ampliada (sticks sticks' : List CacheStick) (id : ℕ) : Type 0 where
  pub cabe : id < length sticks'
  pub tope : length sticks' ≤ 8192
  pub entradas :
      (i : ℕ) (e : CacheStick)
      → get_elem? sticks' i ≡ some e
      → (get_elem? sticks i ≡ some e) ⊎ (e ≡ inicializar_entrada)

pub asegurar_capacidad-Ampliada :
    (sticks : List CacheStick) (id : ℕ)
    → id ≤ 4096
    → length sticks ≤ 8192
    → (sticks' : List CacheStick) × (asegurar_capacidad sticks id ≡ some sticks')
      × Ampliada sticks sticks' id
unfolding asegurar_capacidad
asegurar_capacidad-Ampliada sticks id h k = elim (Bool-cases (ltb id (length sticks))) [
  | inl e ↦ (
    sticks,
    ground (arith, h, e),
    record { cabe = ltb→lt id (length sticks) e; tope = k; entradas = λ i x p. inl p },
  )
  | inr e ↦
      let c = if length sticks == 0 then 4 else length sticks in
      let (n, d, a, b, t) = duplicar-some (suc id) c id (positiva) (acotada k) h (sobra) in
      let nuevos = replicate (n - length sticks) inicializar_entrada in
      let l : length (sticks ++ nuevos) ≡ n = omega (
        arith,
        length-append sticks nuevos,
        length-replicate (n - length sticks) inicializar_entrada,
        ltb→ge id (length sticks) e,
        a,
      ) in
      (
        sticks ++ nuevos,
        rw (e, d) (ground (arith, h, t)),
        record {
          cabe = omega (arith, l, a);
          tope = omega (arith, l, t);
          entradas =
              λ i x p. get_elem?-ampliado sticks (n - length sticks) i inicializar_entrada x p;
        },
      )
]
  where
    positiva : 0 < (if length sticks == 0 then 4 else length sticks)
    positiva = ground arith

    acotada : length sticks ≤ 8192 → (if length sticks == 0 then 4 else length sticks) ≤ 8192
    acotada k' = ground (arith, k')

    sobra : suc id - (if length sticks == 0 then 4 else length sticks) < suc id
    sobra = ground arith
