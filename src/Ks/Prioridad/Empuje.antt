-- ===== src/Ks/Prioridad/Empuje.antt =====
-- A process at the end of the ready queue of its priority: aplicar_cambio_prioridad and
-- encolar_en_ready of kernel_scheduler/src/main.c.
use ssoo.Common.{
  ℕ, suc, zero, ◌+◌, ◌<◌, ◌≡◌, refl, none, some, List, [], ◌∷◌, ◌++◌, length, All-append, false, ℤ,
  int_eq, int_eq_refl, Bool-cases, inl, inr, arith,
}
use ssoo.Ks.Planificador.{Proceso, en_nivel, nivel_de}
use ssoo.Ks.Prioridad.{buscar_pid_en_queue, buscar_en_niveles}
use ssoo.Ks.Prioridad.Niveles.{veces_niveles, buscar-ausente}
use ssoo.Ks.Prioridad.Quitar.{EnNivel, Colocados}

al_final-ajeno :
    (c : List Proceso) (r : Proceso) (k : ℤ)
    → int_eq r.pid k ≡ false
    → buscar_pid_en_queue (c ++ r ∷ []) k ≡ buscar_pid_en_queue c k
unfolding buscar_pid_en_queue
al_final-ajeno [] r k d = rw d refl
al_final-ajeno (p ∷ c) r k d = rw (al_final-ajeno c r k d) refl

al_final-propio :
    (c : List Proceso) (r : Proceso)
    → buscar_pid_en_queue c r.pid ≡ none
    → buscar_pid_en_queue (c ++ r ∷ []) r.pid ≡ some r
unfolding buscar_pid_en_queue
al_final-propio [] r z = rw (int_eq_refl r.pid) refl
al_final-propio (p ∷ c) r z = elim (Bool-cases (int_eq p.pid r.pid)) [
  | inl e ↦ absurd (let y : some p ≡ none = rw e at z in cc)
  | inr e ↦
      let y : buscar_pid_en_queue c r.pid ≡ none = rw e at z in rw (e, al_final-propio c r y) refl
]

pub en_nivel-ajeno :
    (cs : List (List Proceso)) (i : ℕ) (r : Proceso) (k : ℤ)
    → int_eq r.pid k ≡ false
    → buscar_en_niveles (en_nivel (λ c. c ++ r ∷ []) i cs) k ≡ buscar_en_niveles cs k
unfolding buscar_en_niveles en_nivel
en_nivel-ajeno [] i r k d = refl
en_nivel-ajeno (c ∷ cs) zero r k d = rw (al_final-ajeno c r k d) refl
en_nivel-ajeno (c ∷ cs) (suc i) r k d = rw (en_nivel-ajeno cs i r k d) refl

pub en_nivel-propio :
    (cs : List (List Proceso)) (i : ℕ) (r : Proceso)
    → veces_niveles r.pid cs ≡ 0
    → i < length cs
    → buscar_en_niveles (en_nivel (λ c. c ++ r ∷ []) i cs) r.pid ≡ some r
unfolding buscar_en_niveles en_nivel veces_niveles
en_nivel-propio [] i r z h = absurd (omega arith)
en_nivel-propio (c ∷ cs) zero r z h =
    rw (al_final-propio c r (buscar-ausente c r.pid (omega arith))) refl
en_nivel-propio (c ∷ cs) (suc i) r z h =
    rw (buscar-ausente c r.pid (omega arith), en_nivel-propio cs i r (omega arith) (omega arith))
      refl

pub en_nivel-Colocados :
    (n j : ℕ) (cs : List (List Proceso)) (i : ℕ) (r : Proceso)
    → Colocados n j cs
    → nivel_de n r.prioridad ≡ j + i
    → Colocados n j (en_nivel (λ c. c ++ r ∷ []) i cs)
unfolding en_nivel
en_nivel-Colocados n j [] i r h e = tt
en_nivel-Colocados n j (c ∷ cs) zero r h e =
    (All-append (EnNivel n j) c (r ∷ []) h.0 (omega arith, tt), h.1)
en_nivel-Colocados n j (c ∷ cs) (suc i) r h e =
    (h.0, en_nivel-Colocados n (suc j) cs i r h.1 (omega arith))
