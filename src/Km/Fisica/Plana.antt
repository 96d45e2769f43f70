-- ===== src/Km/Fisica/Plana.antt =====
-- The abstract memory: the buffers of the sticks, one behind the other.
use ssoo.Common.{
  ℕ, ◌+◌, ◌-◌, ◌≤◌, ◌<◌, ◌≡◌, ◌≢◌, refl, sym, ap, ◌∙◌, inl, inr, some, List, [], ◌∷◌, ◌++◌, length,
  length-append, All, append_assoc, ltb, u32_mod, arith, Bool-cases,
}
use ssoo.MemoryStick.{EstadoStick}
use ssoo.Km.Sticks.{MemoryStick, ms_para_direccion}
use ssoo.Km.Sticks.Rango.{Contiguos, Activos}
use ssoo.Km.Fisica.{Red, actualizar, tramo}

abbrev pub plana : Red → List MemoryStick → List ℕ
plana red [] = []
plana red (ms ∷ sticks) = (red ms.fd).buffer ++ plana red sticks

-- No stick of the list has the connection `fd`.
abbrev pub SinConexion : ℕ → List MemoryStick → Type 0
SinConexion fd sticks = All (λ ms. ms.fd ≢ fd) sticks

-- Each stick has a connection of its own, and behind it a buffer of the size it announced.
abbrev pub Cableado : Red → List MemoryStick → Type 0
Cableado red [] = Unit {0}
Cableado red (ms ∷ sticks) =
    (length (red ms.fd).buffer ≡ ms.tamanio) × SinConexion ms.fd sticks × Cableado red sticks

-- Memory that works: sticks from address 0 to `fin`, all connected, each behind its connection.
pub record Memoria (red : Red) (sticks : List MemoryStick) (fin : ℕ) : Type 0 where
  pub contiguos : Contiguos 0 sticks fin
  pub activos : Activos sticks
  pub cableado : Cableado red sticks
  pub fin_cabe : fin < u32_mod

pub length-plana :
    (inicio : ℕ) (red : Red) (sticks : List MemoryStick) (fin : ℕ)
    → Contiguos inicio sticks fin
    → Cableado red sticks
    → inicio + length (plana red sticks) ≡ fin
length-plana inicio red [] fin c w = omega arith
length-plana inicio red (ms ∷ sticks) fin (o, t, c) (l, d, w) = omega (
  arith,
  length-append (red ms.fd).buffer (plana red sticks),
  length-plana (inicio + ms.tamanio) red sticks fin c w,
)

pub plana-actualizar :
    (red : Red) (sticks : List MemoryStick) (fd : ℕ) (e : EstadoStick)
    → SinConexion fd sticks
    → plana (actualizar red fd e) sticks ≡ plana red sticks
plana-actualizar red [] fd e s = refl
plana-actualizar red (ms ∷ sticks) fd e (n, s) =
    ap (◌++◌ (actualizar red fd e ms.fd).buffer) (plana-actualizar red sticks fd e s)
    ∙ ap (λ (f : EstadoStick). f.buffer ++ plana red sticks) otra
  where
    otra : actualizar red fd e ms.fd ≡ red ms.fd
    otra = ground (arith, n)

Cableado-actualizar :
    (red : Red) (sticks : List MemoryStick) (fd : ℕ) (e : EstadoStick)
    → SinConexion fd sticks
    → Cableado red sticks
    → Cableado (actualizar red fd e) sticks
Cableado-actualizar red [] fd e s w = tt
Cableado-actualizar red (ms ∷ sticks) fd e (n, s) (l, d, w) =
    (ground (arith, n, l), d, Cableado-actualizar red sticks fd e s w)

-- A found stick in its place: what is before it, its buffer and what is behind make up the memory,
-- and another buffer of the same length takes its place when its state changes.
pub record Hallado (red : Red) (sticks : List MemoryStick) (inicio dir : ℕ) : Type 0 where
  pub ms : MemoryStick
  pub antes : List ℕ
  pub despues : List ℕ
  pub hallado : ms_para_direccion dir sticks ≡ some (ms, dir - ms.offset_global)
  pub desde : ms.offset_global ≡ inicio + length antes
  pub abajo : ms.offset_global ≤ dir
  pub arriba : dir < ms.offset_global + ms.tamanio
  pub mide : length (red ms.fd).buffer ≡ ms.tamanio
  pub partes : plana red sticks ≡ antes ++ ((red ms.fd).buffer ++ despues)
  pub ajeno : (fd : ℕ) → SinConexion fd sticks → ms.fd ≢ fd
  pub cambio :
      (e : EstadoStick)
      → length e.buffer ≡ ms.tamanio
      → (plana (actualizar red ms.fd e) sticks ≡ antes ++ (e.buffer ++ despues))
        × Cableado (actualizar red ms.fd e) sticks

actualizar_self : (red : Red) (fd : ℕ) (e : EstadoStick) → actualizar red fd e fd ≡ e
actualizar_self red fd e = ground arith

module _ (red : Red) (s : MemoryStick) (sticks : List MemoryStick) (inicio dir : ℕ)
    (lw : length (red s.fd).buffer ≡ s.tamanio) (d : SinConexion s.fd sticks)
    (w : Cableado red sticks) where
  cambio_primero :
      (e : EstadoStick)
      → length e.buffer ≡ s.tamanio
      → (plana (actualizar red s.fd e) (s ∷ sticks) ≡ e.buffer ++ plana red sticks)
        × Cableado (actualizar red s.fd e) (s ∷ sticks)
  cambio_primero e k =
      let propio = actualizar_self red s.fd e in
      (
        ap (λ (f : EstadoStick). f.buffer ++ plana (actualizar red s.fd e) sticks) propio
            ∙ ap (◌++◌ e.buffer) (plana-actualizar red sticks s.fd e d),
        (
          ap (λ (f : EstadoStick). length f.buffer) propio ∙ k,
          d,
          Cableado-actualizar red sticks s.fd e d w,
        ),
      )

  cambio_resto :
      (r : Hallado red sticks (inicio + s.tamanio) dir) (e : EstadoStick)
      → length e.buffer ≡ r.ms.tamanio
      → (plana (actualizar red r.ms.fd e) (s ∷ sticks)
          ≡ ((red s.fd).buffer ++ r.antes) ++ (e.buffer ++ r.despues))
        × Cableado (actualizar red r.ms.fd e) (s ∷ sticks)
  cambio_resto r e k =
      let (p, c) = r.cambio e k in
      let otro : actualizar red r.ms.fd e s.fd ≡ red s.fd = igual (r.ajeno s.fd d) in
      (
        ap (λ (f : EstadoStick). f.buffer ++ plana (actualizar red r.ms.fd e) sticks) otro
            ∙ ap (◌++◌ (red s.fd).buffer) p
            ∙ sym (append_assoc (red s.fd).buffer r.antes (e.buffer ++ r.despues)),
        (ap (λ (f : EstadoStick). length f.buffer) otro ∙ lw, d, c),
      )
    where
      igual : r.ms.fd ≢ s.fd → actualizar red r.ms.fd e s.fd ≡ red s.fd
      igual n = ground (arith, n)

pub hallar :
    (red : Red) (inicio : ℕ) (sticks : List MemoryStick) (fin dir : ℕ)
    → Contiguos inicio sticks fin
    → Activos sticks
    → Cableado red sticks
    → inicio ≤ dir
    → dir < fin
    → Hallado red sticks inicio dir
unfolding ms_para_direccion
hallar red inicio [] fin dir c a w l h = absurd (omega arith)
hallar red inicio (s ∷ sticks) fin dir (o, t, c) (a, acts) (lw, d, w) l h =
    elim (Bool-cases (ltb dir (inicio + s.tamanio))) [
      | inl e ↦ record {
        ms = s;
        antes = [];
        despues = plana red sticks;
        hallado = ground (arith, e, o, a, l);
        desde = omega arith;
        abajo = omega arith;
        arriba = ground (arith, e, o, l);
        mide = lw;
        partes = refl;
        ajeno = λ fd n. n.0;
        cambio = cambio_primero red s sticks inicio dir lw d w;
      }
      | inr e ↦
          let r = hallar red (inicio + s.tamanio) sticks fin dir c acts w (ground (arith, e)) h in
          record {
            ms = r.ms;
            antes = (red s.fd).buffer ++ r.antes;
            despues = r.despues;
            hallado = ground (arith, e, o, r.hallado);
            desde = omega (arith, length-append (red s.fd).buffer r.antes, r.desde);
            abajo = r.abajo;
            arriba = r.arriba;
            mide = r.mide;
            partes =
                ap (◌++◌ (red s.fd).buffer) r.partes
                ∙ sym (append_assoc (red s.fd).buffer r.antes _);
            ajeno = λ fd n. r.ajeno fd n.1;
            cambio = cambio_resto red s sticks inicio dir lw d w r;
          }
    ]

pub tramo_bounds :
    (ms : MemoryStick) (d falta : ℕ)
    → d < ms.tamanio
    → 0 < falta
    → (0 < tramo ms d falta) × (tramo ms d falta ≤ falta) × (d + tramo ms d falta ≤ ms.tamanio)
tramo_bounds ms d falta h p = ground arith

-- The buffer of a found stick is no longer than the memory.
pub length-buffer :
    (red : Red) (sticks : List MemoryStick) (fin dir : ℕ)
    → Memoria red sticks fin
    → (r : Hallado red sticks 0 dir) → length (red r.ms.fd).buffer ≤ fin
length-buffer red sticks fin dir m r =
    let buf = (red r.ms.fd).buffer in
    omega (
      arith,
      length-plana 0 red sticks fin m.contiguos m.cableado,
      ap length r.partes,
      length-append r.antes (buf ++ r.despues),
      length-append buf r.despues,
    )
