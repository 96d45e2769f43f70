-- ===== src/Cpu/MemorySticks/Resuelve.antt =====
-- What the CPU resolves is a stick of Kernel Memory, and its table goes on agreeing with it.
use ssoo.Common.{
  ℕ, zero, suc, ◌+◌, ◌-◌, ◌≤◌, ◌<◌, ◌≡◌, refl, sym, ap, subst, ◌∙◌, inl, inr, Option, some, List,
  [], ◌∷◌, length, length-set, get_elem?, get_elem?-set_ne, set, leb, ltb, ◌==◌, ◌&&◌,
  if◌then◌else◌, Bool-cases, Option-cases, ==_iff, true, false, ℤ, pos, negsuc, arith,
}
use ssoo.Km.Sticks.{MemoryStick}
use ssoo.Km.Endpoints.Busqueda.{
  stick_por_id, stick_por_id-All, stick_por_id-id, ms_para_direccion-stick_por_id,
}
use ssoo.Km.Sticks.Rango.{ms_para_direccion-Contiguos}
use ssoo.Cpu.MemorySticks.Tabla.{CacheStick, RegistroSticks, abierto, inicializar_entrada}
use ssoo.Cpu.MemorySticks.Conexion.{Entorno, conectar_endpoint}
use ssoo.Cpu.MemorySticks.Resolver.{
  StickResuelto, copiar_cache, con_rango, cachear_endpoint, buscar_en_cache,
  cpu_memory_sticks_resolver_id, cpu_memory_sticks_resolver_direccion,
}
use ssoo.Cpu.MemorySticks.Capacidad.{asegurar_capacidad-Ampliada}
use ssoo.Cpu.MemorySticks.Fidelidad.{
  Conectable, Publicada, EntradaFiel, TablaFiel, RegistroFiel, EsStick, endpoint_de,
  solicitar_endpoint_por_id-stick, solicitar_endpoint_por_direccion-stick, conectar_endpoint-stick,
}

get_elem?-some {ℓ} :
    {A : Type ℓ} (xs : List A) (i : ℕ) → i < length xs → (a : A) × (get_elem? xs i ≡ some a)
get_elem?-some [] i h = absurd (omega arith)
get_elem?-some (x ∷ xs) zero h = (x, refl)
get_elem?-some (x ∷ xs) (suc i) h = get_elem?-some xs i (omega arith)

get_elem?-set_self {ℓ} :
    {A : Type ℓ} (xs : List A) (i : ℕ) (v a : A) → get_elem? (set xs i v) i ≡ some a → a ≡ v
get_elem?-set_self [] i v a h = absurd (cc)
get_elem?-set_self (x ∷ xs) zero v a h = cc
get_elem?-set_self (x ∷ xs) (suc i) v a h = get_elem?-set_self xs i v a h

module _ (env : Entorno) (sticks : List MemoryStick) where
  set-TablaFiel :
      (xs : List CacheStick) (j : ℕ) (e : CacheStick)
      → TablaFiel env sticks xs
      → EntradaFiel env sticks j e
      → TablaFiel env sticks (set xs j e)
  set-TablaFiel xs j e t f i x h = elim (Bool-cases (j == i)) [
    | inl q ↦
        let p : j ≡ i = (==_iff j i).0 q in
        let h' : get_elem? (set xs j e) j ≡ some x = ap (get_elem? (set xs j e)) p ∙ h in
        subst (λ k. EntradaFiel env sticks k x) p
          (subst (EntradaFiel env sticks j) (sym (get_elem?-set_self xs j e x h')) f)
    | inr q ↦ t i x (sym (get_elem?-set_ne xs j i e (λ p. ground (arith, q, p))) ∙ h)
  ]

  inicial-EntradaFiel : (i : ℕ) → EntradaFiel env sticks i inicializar_entrada
  unfolding inicializar_entrada
  inicial-EntradaFiel i c h = absurd (cc)

  -- An open entry that is faithful, or a new connection, for the stick of an endpoint.
  conexion :
      (cpu_id : ℕ) (ms : MemoryStick) (e : CacheStick)
      → Conectable env ms
      → stick_por_id ms.id sticks ≡ some ms
      → EntradaFiel env sticks ms.id e
      → (c : ℕ) × ((if abierto e.socket
            then e.socket
            else conectar_endpoint env cpu_id (endpoint_de ms))
          ≡ pos c)
        × (env.destino c ≡ some ms.fd)
  conexion cpu_id ms e k h f = por_socket e.socket refl
    where
      por_socket :
          (s : ℤ)
          → e.socket ≡ s
          → (c : ℕ) × ((if abierto e.socket
                then e.socket
                else conectar_endpoint env cpu_id (endpoint_de ms))
              ≡ pos c)
            × (env.destino c ≡ some ms.fd)
      por_socket (pos c) q =
          let g = f c q in
          (c, rw q, g.lleva ∙ ap (λ (m : MemoryStick). some m.fd) (igual g.ms g.por_id))
        where
          igual : (m : MemoryStick) → stick_por_id ms.id sticks ≡ some m → m ≡ ms
          igual m w = cc
      por_socket (negsuc n) q = (k.fd, rw q (conectar_endpoint-stick env cpu_id ms k), k.lleva)

  -- What a resolution gives: a table that still agrees, and a stick.
  pub record Resuelta (s : RegistroSticks × Option StickResuelto) : Type 0 where
    pub registro : RegistroSticks
    pub stick : StickResuelto
    pub resultado : s ≡ (registro, some stick)
    pub fiel : RegistroFiel env sticks registro
    pub es_stick : EsStick env sticks stick

module _ (env : Entorno) (sticks : List MemoryStick) (fin : ℕ) (p : Publicada env sticks fin)
    (r : RegistroSticks) (f : RegistroFiel env sticks r) where
  -- The endpoint of a stick is stored, with a connection to it.
  pub cachear_endpoint-Resuelta :
      (ms : MemoryStick)
      → stick_por_id ms.id sticks ≡ some ms
      → (q : Resuelta env sticks (cachear_endpoint env r (endpoint_de ms))) × (q.stick.base_global
          ≡ ms.offset_global)
        × (q.stick.tamanio ≡ ms.tamanio)
  unfolding cachear_endpoint copiar_cache
  cachear_endpoint-Resuelta ms h =
      let k = stick_por_id-All (Conectable env) ms.id sticks ms h p.conexiones in
      let (xs, a, am) = asegurar_capacidad-Ampliada r.sticks ms.id k.id_cabe f.tope in
      let (e, g) = get_elem?-some xs ms.id am.cabe in
      let t : TablaFiel env sticks xs = λ i x q. elim (am.entradas i x q) [
        | inl v ↦ f.entradas i x v
        | inr v ↦ subst (EntradaFiel env sticks i) (sym v) (inicial-EntradaFiel env sticks i)
      ] in
      let (c, u, v) = conexion env sticks r.cpu_id ms e k h (t ms.id e g) in
      let nueva : CacheStick = con_rango (endpoint_de ms) (pos c) in
      (
        record {
          registro = record r { sticks = set xs ms.id nueva };
          stick = copiar_cache ms.id nueva;
          resultado = rw (a, g, u);
          fiel = record {
            km = f.km;
            con_km = f.con_km;
            tope = omega (arith, length-set xs ms.id nueva, am.tope);
            entradas = set-TablaFiel env sticks xs ms.id nueva t (λ c' w. record {
              ms = ms;
              por_id = h;
              lleva = ap env.destino (cc) ∙ v;
              rango = λ z. (refl, refl);
            });
          };
          es_stick = record {
            ms = ms;
            fd = c;
            por_id = h;
            conexion = refl;
            lleva = v;
            conocido = refl;
            base = refl;
            mide = refl;
          };
        },
        refl,
        refl,
      )

  -- A faithful entry whose range is known is a stick.
  copiar_cache-EsStick :
      (i : ℕ) (e : CacheStick)
      → EntradaFiel env sticks i e
      → abierto e.socket ≡ true
      → e.rango_conocido ≡ true
      → EsStick env sticks (copiar_cache i e)
  unfolding copiar_cache
  copiar_cache-EsStick i e g a k = por_socket e.socket refl
    where
      por_socket : (s : ℤ) → e.socket ≡ s → EsStick env sticks (copiar_cache i e)
      por_socket (pos c) q =
          let w = g c q in
          let (b, m) = w.rango k in
          record {
            ms = w.ms;
            fd = c;
            por_id = w.por_id;
            conexion = q;
            lleva = w.lleva;
            conocido = k;
            base = b;
            mide = m;
          }
      por_socket (negsuc n) q = absurd (cc)

  -- The stick of an id is resolved, from the table or from Kernel Memory.
  pub resolver_id-Resuelta :
      (id : ℕ) (ms : MemoryStick)
      → stick_por_id id sticks ≡ some ms
      → Resuelta env sticks (cpu_memory_sticks_resolver_id env r id)
  unfolding cpu_memory_sticks_resolver_id
  resolver_id-Resuelta id ms h =
      let k = (stick_por_id-All (Conectable env) id sticks ms h p.conexiones).id_cabe in
      let e = stick_por_id-id id sticks ms h in
      let s = solicitar_endpoint_por_id-stick env sticks fin p r f id ms (omega (arith, k)) h e in
      let q = cachear_endpoint-Resuelta ms (ap (λ n. stick_por_id n sticks) e ∙ h) in
      let pedida : Resuelta env sticks (cachear_endpoint env r (endpoint_de ms)) = q.0 in
      rw (corto (omega (arith, k))) (elim (Option-cases (get_elem? r.sticks id)) [
        | inl v ↦ rw (v, s) pedida
        | inr (x, v) ↦ elim (Bool-cases (abierto x.socket && x.rango_conocido)) [
          | inl w ↦
              rw (v, w)
                (record {
                  registro = r;
                  stick = copiar_cache id x;
                  resultado = refl;
                  fiel = f;
                  es_stick =
                      copiar_cache-EsStick id x (f.entradas id x v) (ground (arith, w))
                        (ground (arith, w));
                })
          | inr w ↦ rw (v, w, s) pedida
        ]
      ])
    where
      corto : id ≤ 4096 → ltb 4096 id ≡ false
      corto k = ground (arith, k)

  -- A hit of the cache for an address is an entry of the table.
  buscar_en_cache-some :
      (i : ℕ) (xs : List CacheStick) (dir : ℕ) (s : StickResuelto)
      → ((j : ℕ) (e : CacheStick) → get_elem? xs j ≡ some e → EntradaFiel env sticks (i + j) e)
      → buscar_en_cache i xs dir ≡ some s
      → EsStick env sticks s × (s.base_global ≤ dir) × (dir < s.base_global + s.tamanio)
  unfolding buscar_en_cache copiar_cache
  buscar_en_cache-some i [] dir s t h = absurd (cc)
  buscar_en_cache-some i (e ∷ xs) dir s t h =
      elim (Bool-cases (
        abierto e.socket
        && (e.rango_conocido && (leb e.base_global dir && ltb dir (e.base_global + e.tamanio))))) [
          | inl w ↦
              let z : copiar_cache i e ≡ s = ground (arith, h, w) in
              let i0 : i + 0 ≡ i = omega arith in
              subst
                (λ (u : StickResuelto).
                  EsStick env sticks u × (u.base_global ≤ dir) × (dir < u.base_global + u.tamanio))
                z
                (
                  copiar_cache-EsStick i e (subst (λ n. EntradaFiel env sticks n e) i0 (t 0 e refl))
                      (ground (arith, w)) (ground (arith, w)),
                  ground (arith, w),
                  ground (arith, w),
                )
          | inr w ↦
              buscar_en_cache-some (suc i) xs dir s
                (λ j x g.
                  subst (λ n. EntradaFiel env sticks n x)
                    (let n : i + suc j ≡ suc i + j = omega arith in n) (t (suc j) x g))
                (ground (arith, h, w))
        ]

  -- Any address of the memory is resolved to the stick that holds it.
  pub resolver_direccion-Resuelta :
      (dir : ℕ)
      → dir < fin
      → (q : Resuelta env sticks (cpu_memory_sticks_resolver_direccion env r dir))
        × (q.stick.base_global ≤ dir)
        × (dir < q.stick.base_global + q.stick.tamanio)
  unfolding cpu_memory_sticks_resolver_direccion
  resolver_direccion-Resuelta dir h = elim (Option-cases (buscar_en_cache 0 r.sticks dir)) [
    | inl v ↦
        let (ms, e, a, b) =
          ms_para_direccion-Contiguos 0 sticks fin dir p.contiguos p.activos (omega arith) h in
        let n = p.fin_cabe in
        let s =
          solicitar_endpoint_por_direccion-stick env sticks fin p r f dir ms (omega arith) e a b in
        let u =
          ms_para_direccion-stick_por_id dir (dir - ms.offset_global) sticks ms p.activos
            p.distintos e in
        let (q, x, y) = cachear_endpoint-Resuelta ms u in
        rw (v, s) (q, omega (arith, x, a), omega (arith, x, y, b))
    | inr (s, v) ↦
        let (es, a, b) =
          buscar_en_cache-some 0 r.sticks dir s
            (λ j e g.
              subst (λ n. EntradaFiel env sticks n e) (let n : j ≡ 0 + j = omega arith in n)
                (f.entradas j e g))
            v in
        rw v (record { registro = r; stick = s; resultado = refl; fiel = f; es_stick = es }, a, b)
  ]
