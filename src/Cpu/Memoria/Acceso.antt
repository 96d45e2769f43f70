-- ===== src/Cpu/Memoria/Acceso.antt =====
-- One request of the CPU to a stick reads or writes the flat memory: `memoria_read` and
-- `memoria_write` of cpu/src/cpu_memoria.c.
use ssoo.Common.{
  ℕ, ◌+◌, ◌-◌, ◌≤◌, ◌<◌, ◌≡◌, refl, sym, ap, ◌∷◌, ◌∙◌, some, List, [], ◌++◌, All, length,
  length-take, length-drop, drop, slice, slice-middle, splice, splice-middle, length-splice,
  u32_mod, true, pos, arith,
}
use ssoo.MemoryStick.{EstadoStick}
use ssoo.MemoryStick.Caminos.{atender_cpu-read, atender_cpu-write}
use ssoo.Km.Sticks.{MemoryStick, ms_para_direccion}
use ssoo.Km.Fisica.{Red, actualizar}
use ssoo.Km.Fisica.Plana.{plana, Memoria, Hallado, hallar, length-buffer}
use ssoo.Km.Endpoints.Busqueda.{stick_por_id-Contiguos, ms_para_direccion-All}
use ssoo.Cpu.MemorySticks.Conexion.{Entorno}
use ssoo.Cpu.MemorySticks.Resolver.{StickResuelto}
use ssoo.Cpu.MemorySticks.Fidelidad.{Publicada, EsStick}
use ssoo.Cpu.Memoria.{memoria_read, memoria_write}

-- Every stick knows the offset that Kernel Memory gave it.
abbrev pub Ubicados : Red → List MemoryStick → Type 0
Ubicados red sticks = All (λ ms. (red ms.fd).offset_global_ms ≡ ms.offset_global) sticks

-- Kernel Memory, the sticks and the connections, as a CPU finds them.
pub record Mundo (env : Entorno) (red : Red) (sticks : List MemoryStick) (fin : ℕ) : Type 0 where
  pub publicada : Publicada env sticks fin
  pub memoria : Memoria red sticks fin
  pub ubicados : Ubicados red sticks

memoria_read-local :
    (env : Entorno) (red : Red) (c fd d n : ℕ)
    → env.destino c ≡ some fd
    → 0 < n
    → d + n ≤ length (red fd).buffer
    → (red fd).offset_global_ms + d < u32_mod
    → n < u32_mod
    → memoria_read env red (pos c) ((red fd).offset_global_ms + d) n
      ≡ some (slice d n (red fd).buffer)
unfolding memoria_read
memoria_read-local env red c fd d n e p h k l =
    let w : length (slice d n (red fd).buffer) ≡ n =
      omega (arith, length-take n (drop d (red fd).buffer), length-drop d (red fd).buffer) in
    rw (e, atender_cpu-read (red fd) d n p h k l, w) (ground (arith, p))

memoria_write-local :
    (env : Entorno) (red : Red) (c fd d : ℕ) (xs : List ℕ)
    → env.destino c ≡ some fd
    → 0 < length xs
    → d + length xs ≤ length (red fd).buffer
    → (red fd).offset_global_ms + d < u32_mod
    → length xs < u32_mod - 8
    → memoria_write env red (pos c) ((red fd).offset_global_ms + d) xs
      ≡ (actualizar red fd (record (red fd) { buffer = splice d xs (red fd).buffer }), true)
unfolding memoria_write
memoria_write-local env red c fd d xs e p h k l =
    rw (e, atender_cpu-write (red fd) d xs p h k l) (ground (arith, p, l))

module _ (env : Entorno) (red : Red) (sticks : List MemoryStick) (fin : ℕ)
    (m : Mundo env red sticks fin) (s : StickResuelto) (es : EsStick env sticks s) where
  -- The place of an address of the stick in the memory.
  pub record Lugar (dir n : ℕ) : Type 0 where
    pub hallado : Hallado red sticks 0 dir
    pub conexion : env.destino es.fd ≡ some hallado.ms.fd
    pub local : dir ≡ (red hallado.ms.fd).offset_global_ms + (dir - hallado.ms.offset_global)
    pub cabe : dir - hallado.ms.offset_global + n ≤ length (red hallado.ms.fd).buffer
    pub posicion : dir ≡ length hallado.antes + (dir - hallado.ms.offset_global)
    pub tope : length (red hallado.ms.fd).buffer ≤ fin
    pub dentro : dir < fin

  lugar :
      (dir n : ℕ) → 0 < n → s.base_global ≤ dir → dir + n ≤ s.base_global + s.tamanio → Lugar dir n
  lugar dir n p a b =
      let mem = m.memoria in
      let (i, t, fi, g) =
        stick_por_id-Contiguos 0 s.id_memory_stick sticks fin es.ms mem.contiguos mem.activos
          es.por_id in
      let l : dir < fin = omega (arith, es.base, es.mide, fi) in
      let r = hallar red 0 sticks fin dir mem.contiguos mem.activos mem.cableado (omega arith) l in
      let q : ms_para_direccion dir sticks ≡ some (es.ms, dir - es.ms.offset_global) =
        g dir (omega (arith, es.base)) (omega (arith, es.base, es.mide)) in
      let mismo : es.ms ≡ r.ms = cc (q, r.hallado) in
      let u =
        ms_para_direccion-All (λ ms. (red ms.fd).offset_global_ms ≡ ms.offset_global) dir
          (dir - r.ms.offset_global) sticks r.ms r.hallado m.ubicados in
      let base : s.base_global ≡ r.ms.offset_global =
        es.base ∙ ap (λ (k : MemoryStick). k.offset_global) mismo in
      let mide : s.tamanio ≡ r.ms.tamanio = es.mide ∙ ap (λ (k : MemoryStick). k.tamanio) mismo in
      record {
        hallado = r;
        conexion = es.lleva ∙ ap (λ (k : MemoryStick). some k.fd) mismo;
        local = omega (arith, u, r.abajo);
        cabe = omega (arith, r.mide, base, mide, r.abajo);
        posicion = omega (arith, r.desde, r.abajo);
        tope = length-buffer red sticks fin dir mem r;
        dentro = l;
      }

  -- A request within the stick brings the bytes of the memory.
  pub memoria_read-slice :
      (dir n : ℕ)
      → 0 < n
      → s.base_global ≤ dir
      → dir + n ≤ s.base_global + s.tamanio
      → memoria_read env red s.socket dir n ≡ some (slice dir n (plana red sticks))
  memoria_read-slice dir n p a b =
      let l = lugar dir n p a b in
      let r = l.hallado in
      let d = dir - r.ms.offset_global in
      let buf = (red r.ms.fd).buffer in
      let c = m.memoria.fin_cabe in
      let trozo : slice dir n (plana red sticks) ≡ slice d n buf =
        ap (slice dir n) r.partes
        ∙ ap (λ k. slice k n (r.antes ++ (buf ++ r.despues))) l.posicion
        ∙ slice-middle r.antes buf r.despues d n l.cabe in
      ap (λ x. memoria_read env red x dir n) es.conexion
      ∙ ap (λ k. memoria_read env red (pos es.fd) k n) l.local
      ∙ memoria_read-local env red es.fd r.ms.fd d n l.conexion p l.cabe
          (omega (arith, l.local, l.dentro)) (omega (arith, l.cabe, l.tope))
      ∙ ap some (sym trozo)

  actualizar-Ubicados :
      (fd : ℕ) (e : EstadoStick) (ss : List MemoryStick)
      → e.offset_global_ms ≡ (red fd).offset_global_ms
      → Ubicados red ss
      → Ubicados (actualizar red fd e) ss
  actualizar-Ubicados fd e [] h u = tt
  actualizar-Ubicados fd e (x ∷ ss) h (u, us) =
      (ground (arith, h, u), actualizar-Ubicados fd e ss h us)

  -- A write within the stick puts the bytes in the memory, and the world goes on working.
  pub memoria_write-splice :
      (dir : ℕ) (xs : List ℕ)
      → 0 < length xs
      → s.base_global ≤ dir
      → dir + length xs ≤ s.base_global + s.tamanio
      → length xs < u32_mod - 8
      → (red' : Red) × (memoria_write env red s.socket dir xs ≡ (red', true))
        × (plana red' sticks ≡ splice dir xs (plana red sticks))
        × Mundo env red' sticks fin
  memoria_write-splice dir xs p a b k =
      let l = lugar dir (length xs) p a b in
      let r = l.hallado in
      let d = dir - r.ms.offset_global in
      let buf = (red r.ms.fd).buffer in
      let mem = m.memoria in
      let c = mem.fin_cabe in
      let e : EstadoStick = record (red r.ms.fd) { buffer = splice d xs buf } in
      let (pl, w) = r.cambio e (length-splice d xs buf l.cabe ∙ r.mide) in
      (
        actualizar red r.ms.fd e,
        ap (λ x. memoria_write env red x dir xs) es.conexion
            ∙ ap (λ k. memoria_write env red (pos es.fd) k xs) l.local
            ∙ memoria_write-local env red es.fd r.ms.fd d xs l.conexion p l.cabe
                (omega (arith, l.local, l.dentro)) k,
        pl
            ∙ sym (splice-middle r.antes buf r.despues xs d l.cabe)
            ∙ ap (λ k. splice k xs (r.antes ++ (buf ++ r.despues))) (sym l.posicion)
            ∙ ap (splice dir xs) (sym r.partes),
        record {
          publicada = m.publicada;
          memoria = record {
            contiguos = mem.contiguos;
            activos = mem.activos;
            cableado = w;
            fin_cabe = mem.fin_cabe;
          };
          ubicados = actualizar-Ubicados r.ms.fd e sticks refl m.ubicados;
        },
      )
