-- ===== src/Ks/Prioridad/Cambio.antt =====
-- A change of priority that the queues can hold: aplicar_cambio_prioridad of
-- kernel_scheduler/src/main.c.
use ssoo.Common.{
  ℕ, ◌+◌, ◌<◌, ◌≤◌, ◌≡◌, refl, ap, ◌∙◌, Option, none, some, List, length, true, false, codes,
  strcmp, ℤ, pos, negsuc, int_eq, int_eq→eq, Bool-cases, inl, inr, arith,
}
use ssoo.Ks.Planificador.{Proceso, nivel_de}
use ssoo.Ks.Prioridad.{
  EstadoProcesos, buscar_pid_en_queue, o_bien, buscar_proceso_activo, con_prioridad_niveles,
  escribir_prioridad, quitar_de_niveles, es_nivel, nivel_natural, mover_a_nivel,
  aplicar_cambio_prioridad,
}
use ssoo.Ks.Prioridad.Busqueda.{
  escrito, buscar-con_prioridad, buscar-con_prioridad_ajeno, escribir_prioridad-propio,
  escribir_prioridad-ajeno,
}
use ssoo.Ks.Prioridad.Niveles.{
  veces_niveles, Menos, quitar_de_niveles-Menos, con_prioridad_niveles-ausente,
}
use ssoo.Ks.Prioridad.Quitar.{Colocados, RestoNiveles, Si, quitar_de_niveles-RestoNiveles}
use ssoo.Ks.Prioridad.Empuje.{en_nivel-ajeno, en_nivel-propio, en_nivel-Colocados}

-- The process is found with the priority, any other as before, and each one that is ready stands in
-- the queue of its priority.
pub record Cambiado (s : EstadoProcesos) (p : Proceso) (z : ℤ) (s' : EstadoProcesos) : Type 0 where
  pub propio : buscar_proceso_activo s' p.pid ≡ some (record p { prioridad = z })
  pub ajenos :
      (k : ℤ) → int_eq p.pid k ≡ false → buscar_proceso_activo s' k ≡ buscar_proceso_activo s k
  pub colocados : Colocados (length s.ks.colas_ready) 0 s'.ks.colas_ready

nivel_de-es_nivel : (n : ℕ) (z : ℤ) → es_nivel n z ≡ true → nivel_de n z ≡ nivel_natural z
unfolding nivel_de
nivel_de-es_nivel n (pos k) h = ground arith
nivel_de-es_nivel n (negsuc k) h = absurd (cc)

es_nivel-lt : (n : ℕ) (z : ℤ) → es_nivel n z ≡ true → nivel_natural z < n
es_nivel-lt n (pos k) h = ground arith
es_nivel-lt n (negsuc k) h = absurd (cc)

escribir-Cambiado :
    (s : EstadoProcesos) (p : Proceso) (z : ℤ)
    → buscar_proceso_activo s p.pid ≡ some p
    → Colocados (length s.ks.colas_ready) 0 s.ks.colas_ready
    → veces_niveles p.pid s.ks.colas_ready ≡ 0
    → Cambiado s p z (escribir_prioridad s p.pid z)
escribir-Cambiado s p z h c v = record {
  propio = escribir_prioridad-propio s p.pid z ∙ ap (escrito z) h;
  ajenos = escribir_prioridad-ajeno s p.pid z;
  colocados = rw (con_prioridad_niveles-ausente s.ks.colas_ready p.pid z v) c;
}

-- The process has that priority already.
pub sin_cambio :
    (s : EstadoProcesos) (p : Proceso) (z : ℤ)
    → buscar_proceso_activo s p.pid ≡ some p
    → Colocados (length s.ks.colas_ready) 0 s.ks.colas_ready
    → p.prioridad ≡ z
    → Cambiado s p z s
sin_cambio s p z h c e = record {
  propio = h ∙ ap (λ (y : ℤ). some (record p { prioridad = y })) e;
  ajenos = λ k d. refl;
  colocados = c;
}

-- The search finds the process before or at the place where it was put.
antes_o_ahi :
    (p : Proceso) (z : ℤ) (a b : Option Proceso)
    → o_bien a b ≡ some p
    → o_bien (escrito z a) (some (record p { prioridad = z })) ≡ some (record p { prioridad = z })
antes_o_ahi p z none b h = refl
antes_o_ahi p z (some q) b h = ap (escrito z) h

mover-Cambiado :
    (s : EstadoProcesos) (p : Proceso) (z : ℤ) (o : Option (List (List Proceso)))
    → buscar_proceso_activo s p.pid ≡ some p
    → Colocados (length s.ks.colas_ready) 0 s.ks.colas_ready
    → veces_niveles p.pid s.ks.colas_ready ≤ 1
    → es_nivel (length s.ks.colas_ready) z ≡ true
    → Menos (veces_niveles p.pid s.ks.colas_ready) (veces_niveles p.pid) o
    → Si (RestoNiveles p.pid s.ks.colas_ready) o
    → Cambiado s p z (mover_a_nivel s p z o)
unfolding buscar_proceso_activo
mover-Cambiado s p z none h c v k m r = escribir-Cambiado s p z h c m
mover-Cambiado s p z (some ds) h c v k m r =
    let n : ℕ = length s.ks.colas_ready in
    let q : Proceso = record p { prioridad = z } in
    let ausente : veces_niveles p.pid ds ≡ 0 = omega arith in
    let igual : con_prioridad_niveles p.pid z ds ≡ ds =
      con_prioridad_niveles-ausente ds p.pid z ausente in
    let i<n : nivel_natural z < n = es_nivel-lt n z k in
    let cabe : nivel_natural z < length ds = rw r.largo i<n in
    record {
      propio =
          rw
            (
              buscar-con_prioridad s.ks.cola_exec p.pid z,
              igual,
              en_nivel-propio ds (nivel_natural z) q ausente cabe,
            )
            (antes_o_ahi p z (buscar_pid_en_queue s.ks.cola_exec p.pid) _ h);
      ajenos = λ j d.
          rw
            (
              buscar-con_prioridad_ajeno s.ks.cola_exec p.pid z j d,
              igual,
              en_nivel-ajeno ds (nivel_natural z) q j d,
              r.ajenos j d,
              buscar-con_prioridad_ajeno s.cola_block p.pid z j d,
              buscar-con_prioridad_ajeno s.cola_susp_block p.pid z j d,
              buscar-con_prioridad_ajeno s.cola_susp_ready p.pid z j d,
            )
            refl;
      colocados = rw igual (
          let e' = nivel_de-es_nivel n z k in
          let e : nivel_de n z ≡ 0 + nivel_natural z = omega arith in
          en_nivel-Colocados n 0 ds (nivel_natural z) q (r.colocados n 0 c) e);
    }

pub aplicar_cambio_prioridad-Cambiado :
    (s : EstadoProcesos) (p : Proceso) (z : ℤ)
    → strcmp s.algoritmo (codes "CMN") ≡ true
    → buscar_proceso_activo s p.pid ≡ some p
    → Colocados (length s.ks.colas_ready) 0 s.ks.colas_ready
    → veces_niveles p.pid s.ks.colas_ready ≤ 1
    → es_nivel (length s.ks.colas_ready) z ≡ true
    → Cambiado s p z (aplicar_cambio_prioridad s (some p) z)
unfolding aplicar_cambio_prioridad
aplicar_cambio_prioridad-Cambiado s p z a h c v k = elim (Bool-cases (int_eq p.prioridad z)) [
  | inl e ↦ rw e (sin_cambio s p z h c (int_eq→eq p.prioridad z e))
  | inr e ↦
      rw (e, a, k)
        (mover-Cambiado s p z (quitar_de_niveles s.ks.colas_ready p.pid) h c v k
          (quitar_de_niveles-Menos s.ks.colas_ready p.pid)
          (quitar_de_niveles-RestoNiveles s.ks.colas_ready p.pid))
]
