-- ===== src/Ks/Prioridad/Busqueda.antt =====
-- Searches after a write of a priority: buscar_proceso_activo and aplicar_cambio_prioridad of
-- kernel_scheduler/src/main.c.
use ssoo.Common.{
  ◌≡◌, refl, Option, none, some, List, [], ◌∷◌, false, ℤ, int_eq, int_eq→eq, Bool-cases, inl, inr,
}
use ssoo.Ks.Planificador.{Proceso}
use ssoo.Ks.Prioridad.{
  EstadoProcesos, buscar_pid_en_queue, o_bien, buscar_en_niveles, buscar_proceso_activo,
  con_prioridad, con_prioridad_niveles, escribir_prioridad,
}

-- The found process with its new priority.
abbrev pub escrito : ℤ → Option Proceso → Option Proceso
escrito nueva none = none
escrito nueva (some p) = some (record p { prioridad = nueva })

o_bien-escrito :
    (nueva : ℤ) (a b : Option Proceso)
    → o_bien (escrito nueva a) (escrito nueva b) ≡ escrito nueva (o_bien a b)
o_bien-escrito nueva none b = refl
o_bien-escrito nueva (some p) b = refl

pub buscar-con_prioridad :
    (c : List Proceso) (pid nueva : ℤ)
    → buscar_pid_en_queue (con_prioridad pid nueva c) pid
      ≡ escrito nueva (buscar_pid_en_queue c pid)
unfolding buscar_pid_en_queue con_prioridad
buscar-con_prioridad [] pid nueva = refl
buscar-con_prioridad (p ∷ c) pid nueva = elim (Bool-cases (int_eq p.pid pid)) [
  | inl e ↦ rw (e, e) refl
  | inr e ↦ rw (e, e) (buscar-con_prioridad c pid nueva)
]

pub buscar-con_prioridad_ajeno :
    (c : List Proceso) (pid nueva k : ℤ)
    → int_eq pid k ≡ false
    → buscar_pid_en_queue (con_prioridad pid nueva c) k ≡ buscar_pid_en_queue c k
unfolding buscar_pid_en_queue con_prioridad
buscar-con_prioridad_ajeno [] pid nueva k d = refl
buscar-con_prioridad_ajeno (p ∷ c) pid nueva k d = elim (Bool-cases (int_eq p.pid pid)) [
  | inl e ↦
      let q : p.pid ≡ pid = int_eq→eq p.pid pid e in
      rw (e, q, d, buscar-con_prioridad_ajeno c pid nueva k d) refl
  | inr e ↦ rw (e, buscar-con_prioridad_ajeno c pid nueva k d) refl
]

pub buscar-con_prioridad_niveles :
    (cs : List (List Proceso)) (pid nueva : ℤ)
    → buscar_en_niveles (con_prioridad_niveles pid nueva cs) pid
      ≡ escrito nueva (buscar_en_niveles cs pid)
unfolding buscar_en_niveles con_prioridad_niveles
buscar-con_prioridad_niveles [] pid nueva = refl
buscar-con_prioridad_niveles (c ∷ cs) pid nueva =
    rw (buscar-con_prioridad c pid nueva, buscar-con_prioridad_niveles cs pid nueva)
      (o_bien-escrito nueva (buscar_pid_en_queue c pid) (buscar_en_niveles cs pid))

pub buscar-con_prioridad_niveles_ajeno :
    (cs : List (List Proceso)) (pid nueva k : ℤ)
    → int_eq pid k ≡ false
    → buscar_en_niveles (con_prioridad_niveles pid nueva cs) k ≡ buscar_en_niveles cs k
unfolding buscar_en_niveles con_prioridad_niveles
buscar-con_prioridad_niveles_ajeno [] pid nueva k d = refl
buscar-con_prioridad_niveles_ajeno (c ∷ cs) pid nueva k d =
    rw
      (
        buscar-con_prioridad_ajeno c pid nueva k d,
        buscar-con_prioridad_niveles_ajeno cs pid nueva k d,
      )
      refl

-- The write reaches the process that the search finds, and no other.
pub escribir_prioridad-propio :
    (s : EstadoProcesos) (pid nueva : ℤ)
    → buscar_proceso_activo (escribir_prioridad s pid nueva) pid
      ≡ escrito nueva (buscar_proceso_activo s pid)
unfolding buscar_proceso_activo
escribir_prioridad-propio s pid nueva =
    rw
      (
        buscar-con_prioridad s.ks.cola_exec pid nueva,
        buscar-con_prioridad_niveles s.ks.colas_ready pid nueva,
        buscar-con_prioridad s.cola_block pid nueva,
        buscar-con_prioridad s.cola_susp_block pid nueva,
        buscar-con_prioridad s.cola_susp_ready pid nueva,
        o_bien-escrito,
        o_bien-escrito,
        o_bien-escrito,
        o_bien-escrito,
      )
      refl

pub escribir_prioridad-ajeno :
    (s : EstadoProcesos) (pid nueva k : ℤ)
    → int_eq pid k ≡ false
    → buscar_proceso_activo (escribir_prioridad s pid nueva) k ≡ buscar_proceso_activo s k
unfolding buscar_proceso_activo
escribir_prioridad-ajeno s pid nueva k d =
    rw
      (
        buscar-con_prioridad_ajeno s.ks.cola_exec pid nueva k d,
        buscar-con_prioridad_niveles_ajeno s.ks.colas_ready pid nueva k d,
        buscar-con_prioridad_ajeno s.cola_block pid nueva k d,
        buscar-con_prioridad_ajeno s.cola_susp_block pid nueva k d,
        buscar-con_prioridad_ajeno s.cola_susp_ready pid nueva k d,
      )
      refl
