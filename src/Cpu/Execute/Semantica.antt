-- ===== src/Cpu/Execute/Semantica.antt =====
-- What the instructions do to the registers, read by name: cpu/src/cpu_execute.c.
use ssoo.Common.{
  ℕ, ◌≡◌, ◌<◌, ◌%◌, ◌^◌, ◌+◌, ◌-◌, refl, sym, ap, ◌∙◌, some, [], ◌∷◌, Texto, codes, ◌⊎◌, strcmp,
  strcmp_refl, strcmp_sym, u32, u32_mod, false, Bool-cases, inl, inr, arith,
}
use ssoo.Utils.Contexto.{RegistrosCpu, RegistrosEnRango}
use ssoo.Cpu.Registros.{leer_valor_registro_cpu, tamanio_registro_cpu, escribir_valor_registro_cpu}
use ssoo.Cpu.Registros.Nombres.{map_option}
use ssoo.Cpu.Registros.Acceso.{escribir_valor-leer_valor, escribir_valor-some}
use ssoo.Cpu.Decode.{OpcodeCpu, InstruccionDecodificada}
use ssoo.Cpu.Execute.{
  cpu_exec_ok, strtoul, parsear_uint32, dos_parametros, ejecutar_set, ejecutar_sum, ejecutar_sub,
  avanzar_pc, avanzar_pc_si_corresponde, escribir_y_avanzar, ejecutar_instruccion,
}

escribir-pc :
    (r : RegistrosCpu) (v : ℕ)
    → escribir_valor_registro_cpu r (codes "PC") v ≡ some (record r { pc = v })
unfolding escribir_valor_registro_cpu tamanio_registro_cpu strcmp
escribir-pc r v = refl

leer-pc : (r : RegistrosCpu) → leer_valor_registro_cpu r (codes "PC") ≡ some r.pc
unfolding leer_valor_registro_cpu strcmp
leer-pc r = refl

pub u32-cabe : (n : ℕ) → u32 n < u32_mod
u32-cabe n = omega arith

-- The step of the PC changes no other register.
pub avanzar_pc-otros :
    (r : RegistrosCpu)
    → RegistrosEnRango r
    → RegistrosEnRango (avanzar_pc r)
      × ((c : Texto)
          → strcmp (codes "PC") c ≡ false
          → leer_valor_registro_cpu (avanzar_pc r) c ≡ leer_valor_registro_cpu r c)
unfolding avanzar_pc
avanzar_pc-otros r h =
    let k = λ (c : Texto).
      escribir_valor-leer_valor r (codes "PC") c (u32 (r.pc + 1)) (avanzar_pc r) h
        (u32-cabe (r.pc + 1)) (escribir-pc r (u32 (r.pc + 1))) in
    ((k []).0, λ c e. (k c).2 e)

-- The registers after an instruction that writes `v` to the register `a` of `n` bytes.
pub record Escrito (r : RegistrosCpu) (a : Texto) (n v : ℕ) (r' : RegistrosCpu) : Type 0 where
  pub destino : leer_valor_registro_cpu r' a ≡ some (v % (256 ^ n))
  pub otros :
      (c : Texto)
      → strcmp a c ≡ false
      → strcmp (codes "PC") c ≡ false
      → leer_valor_registro_cpu r' c ≡ leer_valor_registro_cpu r c
  pub siguiente : strcmp a (codes "PC") ≡ false → r'.pc ≡ u32 (r.pc + 1)
  pub caben : RegistrosEnRango r'

pub terminar :
    (r : RegistrosCpu) (a : Texto) (n v : ℕ) (e : RegistrosCpu)
    → RegistrosEnRango r
    → v < u32_mod
    → tamanio_registro_cpu a ≡ some n
    → escribir_valor_registro_cpu r a v ≡ some e
    → Escrito r a n v (avanzar_pc_si_corresponde e a)
unfolding avanzar_pc_si_corresponde avanzar_pc
terminar r a n v e h k t w =
    let b = λ (c : Texto). escribir_valor-leer_valor r a c v e h k w in
    let lee : leer_valor_registro_cpu e a ≡ some (v % (256 ^ n)) =
      (b a).1 (strcmp_refl a) ∙ ap (map_option (λ (m : ℕ). v % (256 ^ m))) t in
    elim (Bool-cases (strcmp a (codes "PC"))) [
      | inl q ↦
          rw (q, avanzar_pc_si_corresponde)
            (record {
              destino = lee;
              otros = λ c d _. (b c).2 d;
              siguiente = λ z. absurd (cc);
              caben = (b a).0;
            })
      | inr q ↦
          let s = avanzar_pc-otros e (b a).0 in
          let p : some e.pc ≡ some r.pc = sym (leer-pc e) ∙ ((b (codes "PC")).2 q ∙ leer-pc r) in
          let p' : e.pc ≡ r.pc = cc in
          rw (q, avanzar_pc_si_corresponde)
            (record {
              destino = s.1 a (strcmp_sym a (codes "PC") q) ∙ lee;
              otros = λ c d z. s.1 c z ∙ (b c).2 d;
              siguiente = λ z. ap (λ (m : ℕ). u32 (m + 1)) p';
              caben = s.0;
            })
    ]

pub escribir_y_avanzar-Escrito :
    (r : RegistrosCpu) (a : Texto) (n v : ℕ)
    → RegistrosEnRango r
    → v < u32_mod
    → tamanio_registro_cpu a ≡ some n
    → (r' : RegistrosCpu) × (escribir_y_avanzar r a v ≡ (cpu_exec_ok, r')) × Escrito r a n v r'
unfolding escribir_y_avanzar
escribir_y_avanzar-Escrito r a n v h k e =
    let (w, q) = escribir_valor-some r a v n e in
    (avanzar_pc_si_corresponde w a, rw (q, escribir_y_avanzar) refl, terminar r a n v w h k e q)

pub tamanio-cases : (a : Texto) (n : ℕ) → tamanio_registro_cpu a ≡ some n → (n ≡ 1) ⊎ (n ≡ 4)
unfolding tamanio_registro_cpu
tamanio-cases a n e = ground arith

u32-tamanio :
    (a : Texto) (n v : ℕ) → tamanio_registro_cpu a ≡ some n → u32 v % (256 ^ n) ≡ v % (256 ^ n)
u32-tamanio a n v e = elim (tamanio-cases a n e) [
  | inl p ↦ rw p (omega arith)
  | inr p ↦ rw p (omega arith)
]

-- The instruction gives the register `a` the value `v`, before it is cut to the register.
pub data Asigna (r : RegistrosCpu) : InstruccionDecodificada → Texto → ℕ → Type 0 where
  set :
      (a b : Texto)
      → Asigna r (record { opcode = OpcodeCpu.cpu_inst_set; parametros = a ∷ b ∷ [] }) a (strtoul b)
  sum :
      (a b : Texto) (x y : ℕ)
      → leer_valor_registro_cpu r a ≡ some x
      → leer_valor_registro_cpu r b ≡ some y
      → Asigna r (record { opcode = OpcodeCpu.cpu_inst_sum; parametros = a ∷ b ∷ [] }) a (x + y)
  sub :
      (a b : Texto) (x y : ℕ)
      → leer_valor_registro_cpu r a ≡ some x
      → leer_valor_registro_cpu r b ≡ some y
      → Asigna r
          (record { opcode = OpcodeCpu.cpu_inst_sub; parametros = a ∷ b ∷ [] })
          a
          (x + u32_mod - y)

ejecutar-escribir :
    (i : InstruccionDecodificada) (r : RegistrosCpu) (a : Texto) (v : ℕ)
    → Asigna r i a v
    → ejecutar_instruccion i r ≡ escribir_y_avanzar r a (u32 v)
unfolding ejecutar_instruccion ejecutar_set ejecutar_sum ejecutar_sub dos_parametros parsear_uint32
ejecutar-escribir i r d v (set a b) = refl
ejecutar-escribir i r d v (sum a b x y p q) = rw (p, ejecutar_sum, q) refl
ejecutar-escribir i r d v (sub a b x y p q) = rw (p, ejecutar_sub, q) refl

Escrito-u32 :
    (r : RegistrosCpu) (a : Texto) (n v : ℕ) (r' : RegistrosCpu)
    → tamanio_registro_cpu a ≡ some n
    → Escrito r a n (u32 v) r'
    → Escrito r a n v r'
Escrito-u32 r a n v r' e w = record {
  destino = w.destino ∙ ap some (u32-tamanio a n v e);
  otros = w.otros;
  siguiente = w.siguiente;
  caben = w.caben;
}

-- SET, SUM and SUB with a known destination succeed. The destination reads back the value, the
-- sum or the difference modulo the size of its register, the PC advances by one unless it is the
-- destination, no other register changes, and each keeps to its C type.
pub ejecutar_instruccion-Escrito :
    (i : InstruccionDecodificada) (r : RegistrosCpu) (a : Texto) (n v : ℕ)
    → RegistrosEnRango r
    → Asigna r i a v
    → tamanio_registro_cpu a ≡ some n
    → (r' : RegistrosCpu) × (ejecutar_instruccion i r ≡ (cpu_exec_ok, r')) × Escrito r a n v r'
ejecutar_instruccion-Escrito i r a n v h w e =
    let (r', p, q) = escribir_y_avanzar-Escrito r a n (u32 v) h (u32-cabe v) e in
    (r', ejecutar-escribir i r a v w ∙ p, Escrito-u32 r a n v r' e q)
