-- ===== src/Ensayos/Ks.antt =====
-- Tests of the kernel scheduler: kernel_scheduler/src.
use ssoo.Common.{
  ◌≡◌, refl, none, some, List, [], ◌∷◌, ◌++◌, All, true, false, codes, strcmp, ℤ, pos, menos_uno,
  int_max, IntLe, arith, ◌⊎◌, ◌↔◌,
}
use ssoo.Ks.Mutex.{
  MutexWaiter, KsMutex, mutexes_init, buscar_mutex, escribir_mutex, mutex_ks_unlock, ceder,
  mutex_ks_prioridad_heredada,
}
use ssoo.Ks.Mutex.Turnos.{Sano}
use ssoo.Ks.Mutex.Colas.{Llamada, crear, tomar, soltar, llamar, nombre_llamado, colas}
use ssoo.Ks.Mutex.Espera.{entregas, entregas-turno}
use ssoo.Ks.Mutex.Refinamiento.{Refina}
use ssoo.Ks.Mutex.Avisos.{Avisa, sin_herencia, llamar-Cumple}
use ssoo.Ks.Mutex.Secuencia.{llamar_todas, especificar_todas, llamar_todas-especificar_todas}
use ssoo.Ks.Mutex.Herencia.{Espera, mutex_ks_prioridad_heredada-Espera}
use ssoo.Ks.Planificador.{Estado, Proceso, EstadoKs, planificar, verificar_preemption}
use ssoo.Ks.Planificador.{elegir, tomar_cpu, sacar_de_exec}
use ssoo.Ks.Planificador.Regreso.{sacar_de_exec-planificar}
use ssoo.Ks.Planificador.Seleccion.{Ronda, planificar-Ronda}
use ssoo.Ks.Planificador.Desalojo.{Desalojo, verificar_preemption-Desalojo}

abbrev tomado : KsMutex
tomado = record {
  nombre = codes "m";
  owner_pid = pos 1;
  owner_prioridad_original = pos 2;
  cola_espera = record { pid = 4; prioridad = pos 0 } ∷ [];
}

abbrev mutexes : List KsMutex
mutexes = tomado ∷ []

mutexes-Sano : All Sano mutexes
mutexes-Sano = (Sano.tomado 1 refl (omega arith) (omega arith, tt), tt)

llamar-Cumple_example :
    let l = tomar 5 (pos 3) (codes "m") in
    Refina mutexes l (llamar mutexes l)
    × (Avisa mutexes l ↔ (sin_herencia l (colas mutexes (codes "m")) ≡ false))
unfolding nombre_llamado
llamar-Cumple_example =
    llamar-Cumple mutexes (tomar 5 (pos 3) (codes "m")) mutexes-Sano (omega arith)

abbrev llamadas : List Llamada
llamadas =
    crear (codes "m")
    ∷ tomar 1 (pos 2) (codes "m")
    ∷ tomar 4 (pos 0) (codes "m")
    ∷ soltar 1 (codes "m")
    ∷ []

llamar_todas-especificar_todas_example :
    (colas (llamar_todas mutexes_init llamadas).0 ≡ (especificar_todas (λ n. none) llamadas).0)
    × ((llamar_todas mutexes_init llamadas).1 ≡ (especificar_todas (λ n. none) llamadas).1)
llamar_todas-especificar_todas_example =
    llamar_todas-especificar_todas llamadas (tt, (omega arith, (omega arith, (omega arith, tt))))

mutex_ks_prioridad_heredada-Espera_example :
    IntLe (mutex_ks_prioridad_heredada mutexes 1) int_max
    × ((z : ℤ) → Espera 1 z mutexes → IntLe (mutex_ks_prioridad_heredada mutexes 1) z)
    × ((mutex_ks_prioridad_heredada mutexes 1 ≡ int_max)
        ⊎ Espera 1 (mutex_ks_prioridad_heredada mutexes 1) mutexes)
mutex_ks_prioridad_heredada-Espera_example = mutex_ks_prioridad_heredada-Espera mutexes 1

cola_antes :
    colas mutexes (codes "m")
    ≡ some (record { pid = 1; prioridad = pos 2 } ∷ record { pid = 4; prioridad = pos 0 } ∷ [])
unfolding colas buscar_mutex strcmp
cola_antes = refl

una_entrega : entregas (codes "m") mutexes (soltar 1 (codes "m") ∷ []) ≡ 1
unfolding entregas llamar mutex_ks_unlock ceder buscar_mutex escribir_mutex strcmp
una_entrega = refl

entregas-turno_example :
    (antes despues : List Llamada) × (resto : List MutexWaiter) × (soltar 1 (codes "m") ∷ []
      ≡ antes ++ despues)
    × (colas (llamar_todas mutexes antes).0 (codes "m")
        ≡ some (record { pid = 4; prioridad = pos 0 } ∷ resto))
entregas-turno_example =
    entregas-turno (codes "m") (record { pid = 4; prioridad = pos 0 }) (soltar 1 (codes "m") ∷ [])
      mutexes (record { pid = 1; prioridad = pos 2 } ∷ []) [] mutexes-Sano (omega arith, tt)
      cola_antes (let e = una_entrega in omega arith)

abbrev corre : Proceso
corre = record {
  pid = pos 0;
  estado = Estado.exec;
  prioridad = pos 3;
  prioridad_base = pos 3;
  fd_cpu = pos 20;
  preemptado = false;
  gen_despacho = 1;
  gen_bloqueo = 0;
}

abbrev espera : Proceso
espera = record {
  pid = pos 1;
  estado = Estado.ready;
  prioridad = pos 1;
  prioridad_base = pos 1;
  fd_cpu = menos_uno;
  preemptado = false;
  gen_despacho = 0;
  gen_bloqueo = 0;
}

abbrev una_libre : EstadoKs
una_libre = record {
  colas_ready = [] ∷ (espera ∷ []) ∷ [];
  cola_exec = corre ∷ [];
  lista_cpus =
      record { fd = pos 20; ocupada = true } ∷ record { fd = pos 21; ocupada = false } ∷ [];
  queue_preemption = true;
  enviados = [];
}

planificar-Ronda_example : Ronda una_libre (planificar una_libre)
planificar-Ronda_example = planificar-Ronda una_libre

abbrev sin_libre : EstadoKs
sin_libre = record {
  colas_ready = [] ∷ (espera ∷ []) ∷ [];
  cola_exec = corre ∷ [];
  lista_cpus = record { fd = pos 20; ocupada = true } ∷ [];
  queue_preemption = true;
  enviados = [];
}

verificar_preemption-Desalojo_example :
    Desalojo sin_libre (pos 1) (verificar_preemption sin_libre espera)
verificar_preemption-Desalojo_example = verificar_preemption-Desalojo sin_libre espera

elegida : elegir una_libre.colas_ready ≡ some (1, espera, [] ∷ [] ∷ [])
unfolding elegir
elegida = refl

tomada :
    tomar_cpu una_libre.lista_cpus
    ≡ some (
      pos 21,
      record { fd = pos 20; ocupada = true } ∷ record { fd = pos 21; ocupada = true } ∷ [],
    )
unfolding tomar_cpu
tomada = refl

sacar_de_exec-planificar_example :
    let r = sacar_de_exec (planificar una_libre) (pos 1) in
    (r.0 ≡ some (record espera { estado = Estado.exec; fd_cpu = menos_uno; gen_despacho = 1 }))
    × (r.1.cola_exec ≡ corre ∷ [])
    × (r.1.lista_cpus
        ≡ record { fd = pos 20; ocupada = true } ∷ record { fd = pos 21; ocupada = false } ∷ [])
    × (r.1.colas_ready ≡ [] ∷ [] ∷ [])
sacar_de_exec-planificar_example =
    sacar_de_exec-planificar una_libre 1 espera ([] ∷ [] ∷ []) (pos 21)
      (record { fd = pos 20; ocupada = true } ∷ record { fd = pos 21; ocupada = true } ∷ []) elegida
      tomada (refl, tt) ((refl, tt), (tt, tt))
