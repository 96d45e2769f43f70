-- ===== src/Cpu/Memoria/Semantica.antt =====
-- What MOV_IN, MOV_OUT and COPY_MEM do when the MMU grants their accesses.
use ssoo.Common.{
  ℕ, ◌-◌, ◌^◌, ◌≤◌, ◌<◌, ◌≡◌, refl, sym, subst, ◌∙◌, ◌⊎◌, Option, none, some, List, [], ◌∷◌, ◌++◌,
  All, length, length-take, length-drop, length-htonl, drop, take, slice, splice, take-all, htonl,
  ntohl-htonl, append-nil, ◌==◌, inl, inr, Texto, u32_mod, true, false, arith,
}
use ssoo.Utils.Contexto.{RegistrosCpu, RegistrosEnRango, ContextoCpu}
use ssoo.Km.Sticks.{MemoryStick}
use ssoo.Km.Fisica.{Red}
use ssoo.Km.Fisica.Plana.{plana, length-plana}
use ssoo.Cpu.Mmu.{TraduccionMmu}
use ssoo.Cpu.Registros.{leer_valor_registro_cpu, tamanio_registro_cpu}
use ssoo.Cpu.Registros.Acceso.{escribir_valor-some}
use ssoo.Cpu.Decode.{OpcodeCpu}
use ssoo.Cpu.Execute.{avanzar_pc, avanzar_pc_si_corresponde}
use ssoo.Cpu.Execute.Semantica.{tamanio-cases, Escrito, terminar}
use ssoo.Cpu.MemorySticks.Tabla.{RegistroSticks}
use ssoo.Cpu.MemorySticks.Conexion.{Entorno}
use ssoo.Cpu.MemorySticks.Fidelidad.{RegistroFiel}
use ssoo.Cpu.Memoria.{
  cpu_memoria_ok, Escritura, valor_a_bytes, bytes_a_valor, traducida, traducir_o_fallar,
  memoria_read_fragmentada,
}
use ssoo.Cpu.Memoria.Acceso.{Mundo}
use ssoo.Cpu.Memoria.Lectura.{memoria_read_fragmentada-slice}
use ssoo.Cpu.Memoria.Escritura.{memoria_write_fragmentada-splice}
use ssoo.Cpu.Memoria.Instrucciones.{
  EstadoCpu, Salida, un_parametro, avanzado, cargar, escrita, copiar, ejecutar_mov_in,
  ejecutar_mov_out, ejecutar_copy_mem, ejecutar_instruccion_memoria,
}
use ssoo.Cpu.Memoria.Permiso.{Servido, Permitido, traducir_o_fallar-Permitido}

-- A CPU that runs a process: the sticks work, the CPU's table agrees with Kernel Memory's, and the
-- segments of the process lie in the memory, which is smaller than one message.
pub record Sana (env : Entorno) (sticks : List MemoryStick) (fin : ℕ) (ctx : ContextoCpu)
    (e : EstadoCpu) : Type 0 where
  pub mundo : Mundo env e.red sticks fin
  pub fiel : RegistroFiel env sticks e.memory_sticks
  pub servidos : All (Servido sticks fin) ctx.segmentos
  pub fin_chico : fin < u32_mod - 8

pub length-valor_a_bytes : (x n : ℕ) → (n ≡ 1) ⊎ (n ≡ 4) → length (take n (valor_a_bytes x n)) ≡ n
unfolding valor_a_bytes htonl
length-valor_a_bytes x n (inl e) = rw e (omega arith)
length-valor_a_bytes x n (inr e) = rw e (omega arith)

pub tamanio_bounds : (a : Texto) (n : ℕ) → tamanio_registro_cpu a ≡ some n → (0 < n) × (n ≤ 4)
tamanio_bounds a n h = por_casos (tamanio-cases a n h)
  where
    por_casos : (n ≡ 1) ⊎ (n ≡ 4) → (0 < n) × (n ≤ 4)
    por_casos (inl u) = omega arith
    por_casos (inr u) = omega arith

-- The bytes of a register are read back as its value.
pub bytes_a_valor-valor_a_bytes :
    (x n : ℕ) → (n ≡ 1) ⊎ (n ≡ 4) → x < 256 ^ n → bytes_a_valor (take n (valor_a_bytes x n)) n ≡ x
unfolding valor_a_bytes bytes_a_valor
bytes_a_valor-valor_a_bytes x n (inl e) h =
    rw e (let k : x < 256 = subst (λ (m : ℕ). x < 256 ^ m) e h in omega arith)
bytes_a_valor-valor_a_bytes x n (inr e) h =
    let k : x < u32_mod = subst (λ (m : ℕ). x < 256 ^ m) e h in
    let u : take 4 (htonl x) ≡ htonl x ++ [] =
      take-all 4 (htonl x) (omega (arith, length-htonl x)) ∙ sym (append-nil (htonl x)) in
    rw e (rw (u, ntohl-htonl x [] k))

module _ (max : ℕ) (env : Entorno) (sticks : List MemoryStick) (fin : ℕ) (ctx : ContextoCpu)
    (e : EstadoCpu) (sana : Sana env sticks fin ctx e) (caben : RegistrosEnRango e.registros) where
  -- A state after an instruction that has left the registers `r` and the memory `bytes`.
  pub record Queda (r : RegistrosCpu) (bytes : List ℕ) (s : Salida) : Type 0 where
    pub final : EstadoCpu
    pub resultado : s ≡ (cpu_memoria_ok, final)
    pub registros : final.registros ≡ r
    pub memoria : plana final.red sticks ≡ bytes
    pub sigue : Sana env sticks fin ctx final

  permiso :
      (dir n : ℕ) (t : TraduccionMmu)
      → dir < u32_mod
      → n < u32_mod
      → 0 < n
      → traducir_o_fallar max ctx dir n ≡ traducida t
      → Permitido sticks fin ctx t n
  permiso dir n t h k p q =
      traducir_o_fallar-Permitido sticks fin max ctx dir n t sana.servidos h k p q

  sigue :
      (red : Red)
      → Mundo env red sticks fin
      → (r : RegistrosCpu) (m : RegistroSticks) → RegistroFiel env sticks m
      → Sana env sticks fin ctx (record { registros = r; memory_sticks = m; red = red })
  sigue red w r m f = record {
    mundo = w;
    fiel = f;
    servidos = sana.servidos;
    fin_chico = sana.fin_chico;
  }

  escrita-Queda :
      (bytes : List ℕ) (o : Escritura)
      → (o.1 ≡ true)
        × (plana o.0.0 sticks ≡ bytes)
        × Mundo env o.0.0 sticks fin
        × RegistroFiel env sticks o.0.1
      → Queda (avanzar_pc e.registros) bytes (escrita e o)
  escrita-Queda bytes ((red, r), true) (t, p, m, f) = record {
    final = avanzado (record e { memory_sticks = r; red = red });
    resultado = refl;
    registros = refl;
    memoria = p;
    sigue = sigue red m (avanzar_pc e.registros) r f;
  }
  escrita-Queda bytes ((red, r), false) (t, p, m, f) = absurd (cc)

  pub ejecutar_mov_out-Queda :
      (a : Texto) (n x : ℕ) (t : TraduccionMmu)
      → tamanio_registro_cpu a ≡ some n
      → leer_valor_registro_cpu e.registros a ≡ some x
      → traducir_o_fallar max ctx e.registros.di n ≡ traducida t
      → Queda
          (avanzar_pc e.registros)
          (splice t.direccion_fisica (take n (valor_a_bytes x n)) (plana e.red sticks))
          (ejecutar_instruccion_memoria max env
            (record { opcode = OpcodeCpu.cpu_inst_mov_out; parametros = a ∷ [] })
            ctx
            e)
  unfolding ejecutar_instruccion_memoria ejecutar_mov_out un_parametro
  ejecutar_mov_out-Queda a n x t h l q =
      let cuatro = tamanio_bounds a n h in
      let p = permiso e.registros.di n t caben.di_cabe (omega arith) cuatro.0 q in
      let datos = take n (valor_a_bytes x n) in
      let largo = length-valor_a_bytes x n (tamanio-cases a n h) in
      let w =
        memoria_write_fragmentada-splice env e.red sticks fin e.memory_sticks t.id_memory_stick
          t.direccion_fisica datos p.ms sana.mundo sana.fiel p.por_id (omega (arith, largo))
          (omega (arith, largo, p.dentro)) (omega (arith, largo)) in
      rw (h, l, q) (escrita-Queda (splice t.direccion_fisica datos (plana e.red sticks)) _ w)

  ejecutar_mov_in-cargar :
      (b : Texto) (n : ℕ) (t : TraduccionMmu)
      → tamanio_registro_cpu b ≡ some n
      → traducir_o_fallar max ctx e.registros.si n ≡ traducida t
      → ejecutar_instruccion_memoria max env
          (record { opcode = OpcodeCpu.cpu_inst_mov_in; parametros = b ∷ [] })
          ctx
          e
        ≡ cargar e b n (
            memoria_read_fragmentada env e.red e.memory_sticks t.id_memory_stick t.direccion_fisica
              n)
  unfolding ejecutar_instruccion_memoria ejecutar_mov_in un_parametro
  ejecutar_mov_in-cargar b n t h q = rw (h, q)

  -- The state after MOV_IN: the register has the value of the bytes, cut to its size.
  pub record Carga (b : Texto) (n v : ℕ) (s : Salida) : Type 0 where
    pub final : EstadoCpu
    pub resultado : s ≡ (cpu_memoria_ok, final)
    pub red_igual : final.red ≡ e.red
    pub escrito : v < u32_mod → Escrito e.registros b n v final.registros
    pub sigue_sana : Sana env sticks fin ctx final

  cargar-Carga :
      (b : Texto) (n : ℕ) (bytes : List ℕ) (o : RegistroSticks × Option (List ℕ))
      → tamanio_registro_cpu b ≡ some n
      → o.1 ≡ some bytes
      → RegistroFiel env sticks o.0
      → Carga b n (bytes_a_valor bytes n) (cargar e b n o)
  cargar-Carga b n bytes (r, none) h k f = absurd (cc)
  cargar-Carga b n bytes (r, some leidos) h k f =
      let v = bytes_a_valor leidos n in
      let (w, q) = escribir_valor-some e.registros b v n h in
      let igual : leidos ≡ bytes = cc in
      rw (sym igual, q)
        (record {
          final = record e { memory_sticks = r; registros = avanzar_pc_si_corresponde w b };
          resultado = refl;
          red_igual = refl;
          escrito = λ c. terminar e.registros b n v w caben c h q;
          sigue_sana = sigue e.red sana.mundo (avanzar_pc_si_corresponde w b) r f;
        })

  pub ejecutar_mov_in-Carga :
      (b : Texto) (n : ℕ) (t : TraduccionMmu)
      → tamanio_registro_cpu b ≡ some n
      → traducir_o_fallar max ctx e.registros.si n ≡ traducida t
      → Carga b n (bytes_a_valor (slice t.direccion_fisica n (plana e.red sticks)) n) (
          ejecutar_instruccion_memoria max env
            (record { opcode = OpcodeCpu.cpu_inst_mov_in; parametros = b ∷ [] })
            ctx
            e)
  ejecutar_mov_in-Carga b n t h q =
      let cuatro = tamanio_bounds b n h in
      let p = permiso e.registros.si n t caben.si_cabe (omega arith) cuatro.0 q in
      let w =
        memoria_read_fragmentada-slice env e.red sticks fin e.memory_sticks t.id_memory_stick
          t.direccion_fisica n p.ms sana.mundo sana.fiel p.por_id cuatro.0 p.dentro in
      let bytes = slice t.direccion_fisica n (plana e.red sticks) in
      subst (Carga b n (bytes_a_valor bytes n)) (sym (ejecutar_mov_in-cargar b n t h q)) (
        cargar-Carga b n bytes
          (memoria_read_fragmentada env e.red e.memory_sticks t.id_memory_stick t.direccion_fisica
            n)
          h w.0 w.1)

  copiar-Queda :
      (n : ℕ) (bytes : List ℕ) (d : TraduccionMmu) (o : RegistroSticks × Option (List ℕ))
      → o.1 ≡ some bytes
      → RegistroFiel env sticks o.0
      → 0 < length bytes
      → Permitido sticks fin ctx d (length bytes)
      → Queda
          (avanzar_pc e.registros)
          (splice d.direccion_fisica bytes (plana e.red sticks))
          (copiar env e d o)
  copiar-Queda n bytes d (r, none) h f l p = absurd (cc)
  copiar-Queda n bytes d (r, some leidos) h f l p =
      let igual : leidos ≡ bytes = cc in
      let c = sana.fin_chico in
      let w =
        memoria_write_fragmentada-splice env e.red sticks fin r d.id_memory_stick d.direccion_fisica
          bytes p.ms sana.mundo f p.por_id l p.dentro (omega (arith, p.dentro)) in
      rw igual (escrita-Queda (splice d.direccion_fisica bytes (plana e.red sticks)) _ w)

  -- COPY_MEM whose two accesses the MMU grants copies the bytes as they were before.
  pub ejecutar_copy_mem-Queda :
      (a : Texto) (n : ℕ) (o d : TraduccionMmu)
      → leer_valor_registro_cpu e.registros a ≡ some n
      → 0 < n
      → n < u32_mod
      → traducir_o_fallar max ctx e.registros.si n ≡ traducida o
      → traducir_o_fallar max ctx e.registros.di n ≡ traducida d
      → Queda
          (avanzar_pc e.registros)
          (splice d.direccion_fisica
            (slice o.direccion_fisica n (plana e.red sticks))
            (plana e.red sticks))
          (ejecutar_instruccion_memoria max env
            (record { opcode = OpcodeCpu.cpu_inst_copy_mem; parametros = a ∷ [] })
            ctx
            e)
  unfolding ejecutar_instruccion_memoria ejecutar_copy_mem un_parametro
  ejecutar_copy_mem-Queda a n o d h p c q q' =
      let po = permiso e.registros.si n o caben.si_cabe c p q in
      let pd = permiso e.registros.di n d caben.di_cabe c p q' in
      let bytes = slice o.direccion_fisica n (plana e.red sticks) in
      let mem = sana.mundo.memoria in
      let lp = length-plana 0 e.red sticks fin mem.contiguos mem.cableado in
      let l : length bytes ≡ n = omega (
        arith,
        length-take n (drop o.direccion_fisica (plana e.red sticks)),
        length-drop o.direccion_fisica (plana e.red sticks),
        lp,
        po.dentro,
      ) in
      let w =
        memoria_read_fragmentada-slice env e.red sticks fin e.memory_sticks o.id_memory_stick
          o.direccion_fisica n po.ms sana.mundo sana.fiel po.por_id p po.dentro in
      let cero : (n == 0) ≡ false = ground (arith, p) in
      rw (h, cero, q, q')
        (copiar-Queda n bytes d
          (memoria_read_fragmentada env e.red e.memory_sticks o.id_memory_stick o.direccion_fisica
            n)
          w.0 w.1 (omega (arith, l)) (subst (Permitido sticks fin ctx d) (sym l) pd))
