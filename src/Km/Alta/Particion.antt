-- ===== src/Km/Alta/Particion.antt =====
-- What the identification of a Memory Stick adds to the memory: kernel_memory/src/main.c.
use ssoo.Common.{
  ℕ, ◌+◌, ◌≡◌, ◌<◌, refl, sym, ap, ◌∙◌, subst, inl, inr, Option, none, some, List, [], ◌∷◌, ◌++◌,
  All, All-append, ltb, not, ◌&&◌, Bool-cases, u32_mod, arith,
}
use ssoo.Km.Huecos.{Hueco, agregar_hueco}
use ssoo.Km.Huecos.Cobertura.{cubre, libre, libre-agregar_hueco, HuecoEnRango}
use ssoo.Km.Huecos.Fusion.{fusionar_huecos-libre}
use ssoo.Km.Sticks.{MemoryStick, nuevo_stick}
use ssoo.Km.Sticks.Rango.{Contiguos, nuevo_stick-Contiguos}
use ssoo.Km.Alta.{EstadoMemoria, leer_identificacion, sumar_stick, identificar_memory_stick}

-- The sticks cover the addresses below `fin`, and the free ranges lie within 32 bits.
pub record MemoriaFormada (e : EstadoMemoria) (fin : ℕ) : Type 0 where
  pub contiguos : Contiguos 0 e.memory_sticks fin
  pub fin_cabe : fin < u32_mod
  pub huecos_en_rango : All HuecoEnRango e.huecos

nuevo_stick-tamanio :
    (n fd t ip p : ℕ) (sticks : List MemoryStick) (ms : MemoryStick)
    → nuevo_stick n fd t ip p sticks ≡ some ms
    → ms.tamanio ≡ t
unfolding nuevo_stick
nuevo_stick-tamanio n fd t ip p sticks ms e = ground (arith, e)

-- The offset of the last stick.
Contiguos-ultimo :
    (inicio : ℕ) (sticks : List MemoryStick) (ms : MemoryStick) (fin : ℕ)
    → Contiguos inicio (sticks ++ ms ∷ []) fin
    → ms.offset_global + ms.tamanio ≡ fin
Contiguos-ultimo inicio [] ms fin (o, t, c) = omega (arith, o, c)
Contiguos-ultimo inicio (s ∷ sticks) ms fin (o, t, c) =
    Contiguos-ultimo (inicio + s.tamanio) sticks ms fin c

some-inj : {A : Type 0} {a b : A} → some a ≡ some b → a ≡ b
some-inj h = cc

agregar-EnRango :
    (hs : List Hueco) (ms : MemoryStick)
    → All HuecoEnRango hs
    → 0 < ms.tamanio
    → ms.offset_global + ms.tamanio < u32_mod
    → All HuecoEnRango (agregar_hueco ms.offset_global ms.tamanio hs)
unfolding agregar_hueco
agregar-EnRango hs ms h p c =
    All-append HuecoEnRango hs
      (record { base_global = ms.offset_global; tamanio = ms.tamanio } ∷ []) h
      (record { no_vacio = p; cabe = c }, tt)

-- What an accepted stick of this size did.
abbrev pub Sumado : EstadoMemoria → ℕ → ℕ → EstadoMemoria × ℕ → Type 0
Sumado e fin tamanio (e', offset) =
    (offset ≡ fin)
    × MemoriaFormada e' (fin + tamanio)
    × ((x : ℕ) → libre x e'.huecos ≡ libre x e.huecos + cubre x fin tamanio)

sumar_stick-Sumado :
    (e : EstadoMemoria) (fin fd t ip p : ℕ) (r : EstadoMemoria × ℕ)
    → MemoriaFormada e fin
    → 0 < t
    → t < u32_mod
    → sumar_stick e (nuevo_stick e.next_ms_id fd t ip p e.memory_sticks) ≡ some r
    → Sumado e fin t r
sumar_stick-Sumado e fin fd t ip p r f pt ct h =
    elim (nuevo_stick-Contiguos e.next_ms_id fd t ip p fin e.memory_sticks pt ct f.contiguos
      f.fin_cabe) [
        | inl (g, q) ↦
            let z : sumar_stick e none ≡ some r = ap (sumar_stick e) (sym q) ∙ h in absurd (cc)
        | inr (ms, q, ac, cabe, c) ↦
            let z : sumar_stick e (some ms) ≡ some r = ap (sumar_stick e) (sym q) ∙ h in
            let tam : ms.tamanio ≡ t =
              nuevo_stick-tamanio e.next_ms_id fd t ip p e.memory_sticks ms q in
            let fin_ms = Contiguos-ultimo 0 e.memory_sticks ms (fin + t) c in
            let off : ms.offset_global ≡ fin = omega (arith, tam, fin_ms) in
            let nuevos = agregar_hueco ms.offset_global ms.tamanio e.huecos in
            let ok : All HuecoEnRango nuevos =
              agregar-EnRango e.huecos ms f.huecos_en_rango (omega (arith, tam)) (omega arith) in
            let (l, k) = fusionar_huecos-libre nuevos ok in
            subst (Sumado e fin t) (some-inj z) (
              off,
              record { contiguos = c; fin_cabe = cabe; huecos_en_rango = k },
              λ x.
                  l x
                  ∙ (libre-agregar_hueco x ms.offset_global ms.tamanio e.huecos
                      ∙ rw (off, tam) refl),
            )
      ]

-- A stick that is accepted with the size that its payload tells is put behind the others and told
-- the address where they ended. The sticks then cover that many addresses more, still within 32
-- bits, and exactly the new addresses have become free. The sticks covered the addresses below
-- `fin` before, and the size fits 32 bits.
pub identificar_memory_stick-Sumado :
    (e : EstadoMemoria) (fin fd : ℕ) (peer : Option ℕ) (payload : List ℕ) (tamanio puerto : ℕ)
    (r : EstadoMemoria × ℕ)
    → MemoriaFormada e fin
    → leer_identificacion payload ≡ some (tamanio, puerto)
    → tamanio < u32_mod
    → identificar_memory_stick e fd peer payload ≡ some r
    → Sumado e fin tamanio r
unfolding identificar_memory_stick
identificar_memory_stick-Sumado e fin fd none payload t p r f l c h = absurd (ground (arith, h, l))
identificar_memory_stick-Sumado e fin fd (some ip) payload t p r f l c h =
    elim (Bool-cases (ltb 0 t && not (ltb 65535 p))) [
      | inl v ↦
          sumar_stick-Sumado e fin fd t ip p r f (ground (arith, v)) c (ground (arith, h, l, v))
      | inr v ↦ absurd (ground (arith, h, l, v))
    ]
