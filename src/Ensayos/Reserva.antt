-- ===== src/Ensayos/Reserva.antt =====
-- Tests of the processes that wait for kernel memory: kernel_scheduler/src/main.c.
use ssoo.Common.{◌+◌, ◌≤◌, ◌≡◌, [], ◌∷◌, false, pos, menos_uno, arith}
use ssoo.Ks.Planificador.{Estado, Proceso, encolar_en_ready, planificar}
use ssoo.Ks.Memoria.{Sistema, conectar_cpu, pedir_memoria}
use ssoo.Ks.Memoria.Reparto.{libres, en_cpu}
use ssoo.Ks.Memoria.Pasos.{
  uso, conectar, encolar, ronda, pedir, al_inicio, Alcanzable, inicio, sigue,
}
use ssoo.Ks.Memoria.Exclusiva.{Alcanzable-exclusiva}

abbrev pide : Proceso
pide = record {
  pid = pos 1;
  estado = Estado.ready;
  prioridad = pos 0;
  prioridad_base = pos 0;
  fd_cpu = menos_uno;
  preemptado = false;
  gen_despacho = 0;
  gen_bloqueo = 0;
}

abbrev vacio : Sistema
vacio = al_inicio ([] ∷ []) false

abbrev conectado : Sistema
conectado = record vacio { ks = conectar_cpu vacio.ks (pos 20) }

abbrev encolado : Sistema
encolado = record conectado { ks = encolar_en_ready conectado.ks pide }

abbrev despachado : Sistema
despachado = record encolado { ks = planificar encolado.ks }

abbrev reservado : Sistema
reservado = pedir_memoria despachado (pos 1)

sin_uso : uso (pos 20) vacio ≡ 0
unfolding libres en_cpu
sin_uso = omega arith

reservado-Alcanzable : Alcanzable reservado
reservado-Alcanzable =
    sigue despachado reservado
      (sigue encolado despachado
        (sigue conectado encolado
          (sigue vacio conectado (inicio ([] ∷ []) false) (conectar (pos 20) sin_uso))
          (encolar pide))
        ronda)
      (pedir (pos 1))

Alcanzable-exclusiva_example :
    libres (pos 20) reservado.ks.lista_cpus
      + en_cpu (pos 20) reservado.ks.cola_exec
      + en_cpu (pos 20) reservado.en_memoria
    ≤ 1
Alcanzable-exclusiva_example = Alcanzable-exclusiva reservado reservado-Alcanzable (pos 20)
