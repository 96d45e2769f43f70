-- ===== src/Ks/Prioridad/Efectiva.antt =====
-- The effective priority: recalcular_prioridad_efectiva of kernel_scheduler/src/main.c.
use ssoo.Common.{
  ℕ, ◌≤◌, ◌≡◌, refl, sym, some, List, All, length, true, false, codes, strcmp, ℤ, pos, negsuc,
  int_eq, int_eq→eq, int_ltb, int_max, IntLe, IntLe-refl, IntLe-lt, IntLe-trans, Bool-cases, ◌⊎◌,
  inl, inr, arith,
}
use ssoo.Ks.Mutex.{MutexWaiter, KsMutex, mutex_ks_prioridad_heredada}
use ssoo.Ks.Mutex.Herencia.{EnCola, Espera, mutex_ks_prioridad_heredada-Espera}
use ssoo.Ks.Planificador.{Proceso}
use ssoo.Ks.Prioridad.{
  max_colas, EstadoProcesos, buscar_proceso_activo, es_nivel, pid_uint32, prioridad_efectiva,
  recalcular_prioridad_efectiva,
}
use ssoo.Ks.Prioridad.Niveles.{veces_niveles}
use ssoo.Ks.Prioridad.Quitar.{Colocados}
use ssoo.Ks.Prioridad.Cambio.{Cambiado, sin_cambio, aplicar_cambio_prioridad-Cambiado}

-- The best among the base priority and the priorities of those that wait for a mutex of the process.
pub record Efectiva (ms : List KsMutex) (p : Proceso) (z : ℤ) : Type 0 where
  pub menor_base : IntLe z p.prioridad_base
  pub menor : (y : ℤ) → Espera (pid_uint32 p.pid) y ms → IntLe z y
  pub alguna : (z ≡ p.prioridad_base) ⊎ Espera (pid_uint32 p.pid) z ms

es_nivel-int_max : (n : ℕ) (b : ℤ) → n ≤ max_colas → es_nivel n b ≡ true → int_ltb int_max b ≡ false
es_nivel-int_max n (pos k) h e = ground arith
es_nivel-int_max n (negsuc k) h e = ground arith

es_nivel-menor :
    (n : ℕ) (b z : ℤ)
    → es_nivel n b ≡ true
    → int_ltb z b ≡ true
    → int_ltb z (pos 0) ≡ false
    → es_nivel n z ≡ true
es_nivel-menor n (pos b) (pos k) e m h = ground arith
es_nivel-menor n (pos b) (negsuc k) e m h = absurd (cc)
es_nivel-menor n (negsuc b) z e m h = absurd (cc)

-- A process that waits has no negative priority.
abbrev pub NoNegativa : MutexWaiter → Type 0
NoNegativa w = int_ltb w.prioridad (pos 0) ≡ false

abbrev pub SinNegativas : KsMutex → Type 0
SinNegativas m = All NoNegativa m.cola_espera

EnCola-NoNegativa :
    (z : ℤ) (ws : List MutexWaiter) → All NoNegativa ws → EnCola z ws → int_ltb z (pos 0) ≡ false
EnCola-NoNegativa z _ h (EnCola.primero w ws e) = rw (sym e) h.0
EnCola-NoNegativa z _ h (EnCola.despues w ws k) = EnCola-NoNegativa z ws h.1 k

Espera-NoNegativa :
    (pid : ℕ) (z : ℤ) (ms : List KsMutex)
    → All SinNegativas ms
    → Espera pid z ms
    → int_ltb z (pos 0) ≡ false
Espera-NoNegativa pid z _ h (Espera.propio m ms q k) = EnCola-NoNegativa z m.cola_espera h.0 k
Espera-NoNegativa pid z _ h (Espera.otro m ms k) = Espera-NoNegativa pid z ms h.1 k

-- For a base priority that is the number of a queue, and priorities of those that wait that are not
-- negative, the effective priority is the best of them and the number of a queue.
prioridad_efectiva-Efectiva :
    (n : ℕ) (ms : List KsMutex) (p : Proceso)
    → n ≤ max_colas
    → es_nivel n p.prioridad_base ≡ true
    → All SinNegativas ms
    → Efectiva ms p (prioridad_efectiva ms p) × (es_nivel n (prioridad_efectiva ms p) ≡ true)
prioridad_efectiva-Efectiva n ms p h b w =
    let heredada : ℤ = mutex_ks_prioridad_heredada ms (pid_uint32 p.pid) in
    let (tope, todos, una) = mutex_ks_prioridad_heredada-Espera ms (pid_uint32 p.pid) in
    elim (Bool-cases (int_ltb heredada p.prioridad_base)) [
      | inr q ↦ rw q (
        record {
          menor_base = IntLe-refl p.prioridad_base;
          menor = λ y e. IntLe-trans p.prioridad_base heredada y q (todos y e);
          alguna = inl refl;
        },
        b,
      )
      | inl q ↦ elim una [
        | inl m ↦ absurd (
            let y = es_nivel-int_max n p.prioridad_base h b in
            let x : int_ltb int_max p.prioridad_base ≡ true = rw m at q in cc)
        | inr e ↦ rw q (
          record {
            menor_base = IntLe-lt heredada p.prioridad_base q;
            menor = todos;
            alguna = inr e;
          },
          es_nivel-menor n p.prioridad_base heredada b q
              (Espera-NoNegativa (pid_uint32 p.pid) heredada ms w e),
        )
      ]
    ]

-- With the algorithm CMN, at most MAX_COLAS ready queues in which each process stands in the queue
-- of its priority, a process that the search finds and that stands at most once in them, a base
-- priority that is the number of a queue and no negative priority among those that wait for
-- mutexes, the recalculation gives the process the best of its base priority and the priorities of
-- those that wait for its mutexes. The search finds every other process as before, and each process
-- that is ready stands in the queue of its priority.
pub recalcular_prioridad_efectiva-Cambiado :
    (s : EstadoProcesos) (ms : List KsMutex) (p : Proceso)
    → strcmp s.algoritmo (codes "CMN") ≡ true
    → length s.ks.colas_ready ≤ max_colas
    → Colocados (length s.ks.colas_ready) 0 s.ks.colas_ready
    → buscar_proceso_activo s p.pid ≡ some p
    → veces_niveles p.pid s.ks.colas_ready ≤ 1
    → es_nivel (length s.ks.colas_ready) p.prioridad_base ≡ true
    → All SinNegativas ms
    → (efectiva : ℤ) × Efectiva ms p efectiva
      × Cambiado s p efectiva (recalcular_prioridad_efectiva s ms (some p))
unfolding recalcular_prioridad_efectiva
recalcular_prioridad_efectiva-Cambiado s ms p a n c h v b w =
    let efectiva : ℤ = prioridad_efectiva ms p in
    let (mejor, valida) = prioridad_efectiva-Efectiva (length s.ks.colas_ready) ms p n b w in
    (
      efectiva,
      mejor,
      elim (Bool-cases (int_eq efectiva p.prioridad)) [
        | inl e ↦ rw e (sin_cambio s p efectiva h c (sym (int_eq→eq efectiva p.prioridad e)))
        | inr e ↦ rw e (aplicar_cambio_prioridad-Cambiado s p efectiva a h c v valida)
      ],
    )
