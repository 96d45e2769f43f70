-- ===== src/Cpu/Registros/Acceso.antt =====
-- What a write by name does to every later read by name: cpu/src/cpu_registros.c.
use ssoo.Common.{
  ℕ, ◌≡◌, ◌≢◌, ◌<◌, ◌%◌, ◌^◌, refl, sym, ap, ◌∙◌, none, some, Texto, strcmp, strcmp→eq, strcmp_refl,
  u32_mod, true, false, Option-cases, inl, inr,
}
use ssoo.Utils.Contexto.{RegistrosCpu, RegistrosEnRango}
use ssoo.Cpu.Registros.{leer_valor_registro_cpu, tamanio_registro_cpu, escribir_valor_registro_cpu}
use ssoo.Cpu.Registros.Nombres.{
  Registro, registro, bytes, map_option, poner, leer_valor-registro, tamanio-registro,
  escribir_valor-registro, nombre_de, registro→nombre_de, valor-poner, valor-poner_ne,
  poner-RegistrosEnRango,
}

leer-mismo :
    (r : RegistrosCpu) (v : ℕ)
    → v < u32_mod
    → (b : Texto) (x : Registro) → registro b ≡ some x
    → leer_valor_registro_cpu (poner r v x) b
      ≡ map_option (λ n. v % (256 ^ n)) (tamanio_registro_cpu b)
leer-mismo r v h b x e =
    rw (leer_valor-registro (poner r v x) b, tamanio-registro b, e) (ap some (valor-poner r v h x))

registro_ne :
    (a b : Texto) (x y : Registro)
    → strcmp a b ≡ false
    → registro a ≡ some x
    → registro b ≡ some y
    → x ≢ y
registro_ne a b x y d ea eb p =
    let q : a ≡ b =
      registro→nombre_de a x ea ∙ (ap nombre_de p ∙ sym (registro→nombre_de b y eb)) in
    let t : strcmp a a ≡ false = rw (ap (strcmp a) q) d in cc (t, strcmp_refl a)

leer-otro :
    (r : RegistrosCpu) (v : ℕ) (a b : Texto) (x : Registro)
    → registro a ≡ some x
    → strcmp a b ≡ false
    → leer_valor_registro_cpu (poner r v x) b ≡ leer_valor_registro_cpu r b
leer-otro r v a b x ea d =
    rw (leer_valor-registro (poner r v x) b, leer_valor-registro r b)
      (elim (Option-cases (registro b)) [
        | inl e ↦ rw e refl
        | inr (y, e) ↦ rw e (ap some (valor-poner_ne r v x y (registro_ne a b x y d ea e)))
      ])

escritura :
    (r : RegistrosCpu) (v : ℕ) (a : Texto) (r' : RegistrosCpu)
    → escribir_valor_registro_cpu r a v ≡ some r'
    → (x : Registro) × (registro a ≡ some x) × (r' ≡ poner r v x)
escritura r v a r' h = elim (Option-cases (registro a)) [
  | inl e ↦
      let q : map_option (poner r v) none ≡ some r' =
        sym (ap (map_option (poner r v)) e) ∙ (sym (escribir_valor-registro r a v) ∙ h) in
      cc
  | inr (x, e) ↦
      let q : map_option (poner r v) (some x) ≡ some r' =
        sym (ap (map_option (poner r v)) e) ∙ (sym (escribir_valor-registro r a v) ∙ h) in
      (x, e, cc)
]

-- A write by name that succeeds keeps every register in its C type. A read of the same name then
-- gives the value modulo 256 to the number of bytes of that register, a read of any other name
-- what it gave before.
pub escribir_valor-leer_valor :
    (r : RegistrosCpu) (a b : Texto) (v : ℕ) (r' : RegistrosCpu)
    → RegistrosEnRango r
    → v < u32_mod
    → escribir_valor_registro_cpu r a v ≡ some r'
    → RegistrosEnRango r'
      × (strcmp a b ≡ true
          → leer_valor_registro_cpu r' b ≡ map_option (λ n. v % (256 ^ n)) (tamanio_registro_cpu b))
      × (strcmp a b ≡ false → leer_valor_registro_cpu r' b ≡ leer_valor_registro_cpu r b)
escribir_valor-leer_valor r a b v r' w h e =
    let (x, ea, p) = escritura r v a r' e in
    rw p (
      poner-RegistrosEnRango r v h x w,
      (λ q. leer-mismo r v h b x (rw (sym (strcmp→eq a b q)) ea)),
      leer-otro r v a b x ea,
    )

-- A name with a size can be written.
pub escribir_valor-some :
    (r : RegistrosCpu) (a : Texto) (v n : ℕ)
    → tamanio_registro_cpu a ≡ some n
    → (r' : RegistrosCpu) × (escribir_valor_registro_cpu r a v ≡ some r')
escribir_valor-some r a v n h = elim (Option-cases (registro a)) [
  | inl e ↦
      let q : none ≡ some n = ap (map_option bytes) (sym e) ∙ (sym (tamanio-registro a) ∙ h) in
      absurd cc
  | inr (x, e) ↦ (poner r v x, escribir_valor-registro r a v ∙ ap (map_option (poner r v)) e)
]
