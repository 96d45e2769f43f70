-- ===== src/Ks/Memoria.antt =====
-- The processes that wait for kernel memory with their CPU reserved: sacar_proc_de_exec_para_mem to
-- manejar_mem_free of kernel_scheduler/src/main.c, the entry of a CPU in
-- atender_cliente and its end in atender_cpu.
-- The answer of kernel memory is an argument. Quantum timers and the semaphores of a compaction are
-- left out.
pub mod Reparto
pub mod Pasos
pub mod Exclusiva
use ssoo.Common.{
  ℕ, ◌+◌, Option, none, some, List, [], ◌∷◌, ◌++◌, Bool, true, false, ℤ, menos_uno, int_eq,
  if◌then◌else◌,
}
use ssoo.Ks.Planificador.{
  Estado, Proceso, CpuEntry, EstadoKs, despachar_proceso, separar, liberar_cpu, encolar_en_ready,
}

-- `en_memoria` has the processes that the threads of the memory requests hold, `avisos_km` the PIDs
-- whose end kernel memory was told.
pub record Sistema : Type 0 where
  pub ks : EstadoKs
  pub en_memoria : List Proceso
  pub cola_exit : List Proceso
  pub avisos_km : List ℤ

-- A CPU that has identified itself.
abbrev pub conectar_cpu : EstadoKs → ℤ → EstadoKs
conectar_cpu s fd = record s {
  lista_cpus = s.lista_cpus ++ record { fd = fd; ocupada = false } ∷ [];
}

-- The entry of a CPU that is gone leaves the list.
unfoldable pub quitar_cpu : ℤ → List CpuEntry → List CpuEntry
quitar_cpu fd [] = []
quitar_cpu fd (c ∷ cs) = if int_eq c.fd fd then cs else c ∷ quitar_cpu fd cs

-- The loop over EXEC: the first process of that CPU, and the others in order.
unfoldable pub separar_fd :
    ℤ → List Proceso → Option Proceso → List Proceso → Option Proceso × List Proceso
separar_fd fd [] hallado otros = (hallado, otros)
separar_fd fd (q ∷ qs) none otros =
    separar_fd fd qs (if int_eq q.fd_cpu fd then some q else none)
      (if int_eq q.fd_cpu fd then otros else otros ++ q ∷ [])
separar_fd fd (q ∷ qs) (some p) otros = separar_fd fd qs (some p) (otros ++ q ∷ [])

-- The process that ran on the lost CPU is READY again.
abbrev pub rescatar : EstadoKs → Option Proceso × List Proceso → EstadoKs
rescatar s (none, otros) = record s { cola_exec = otros }
rescatar s (some p, otros) =
    encolar_en_ready (record s { cola_exec = otros })
      (record p { fd_cpu = menos_uno; preemptado = false; estado = Estado.ready })

unfoldable pub desconectar_cpu : EstadoKs → ℤ → EstadoKs
desconectar_cpu s fd =
    rescatar (record s { lista_cpus = quitar_cpu fd s.lista_cpus })
      (separar_fd fd s.cola_exec none [])

-- The process that was found keeps its CPU, which stays taken.
abbrev pub para_mem : EstadoKs → Option Proceso × List Proceso → Option Proceso × EstadoKs
para_mem s (none, otros) = (none, record s { cola_exec = otros })
para_mem s (some p, otros) =
    (some (record p { preemptado = false }), record s { cola_exec = otros })

unfoldable pub sacar_proc_de_exec_para_mem : EstadoKs → ℤ → Option Proceso × EstadoKs
sacar_proc_de_exec_para_mem s pid = para_mem s (separar pid s.cola_exec none [])

abbrev pub re_exec_sin_despachar : EstadoKs → Proceso → EstadoKs
re_exec_sin_despachar s p = record s { cola_exec = s.cola_exec ++ p ∷ [] }

unfoldable pub redespachar_a_misma_cpu : EstadoKs → Proceso → EstadoKs
redespachar_a_misma_cpu s p =
    let t = re_exec_sin_despachar s (record p { gen_despacho = p.gen_despacho + 1 }) in
    record t { enviados = t.enviados ++ despachar_proceso p.fd_cpu p.pid ∷ [] }

unfoldable pub finalizar_por_error_mem : Sistema → Proceso → Sistema
finalizar_por_error_mem s p = record s {
  ks = record s.ks { lista_cpus = liberar_cpu p.fd_cpu s.ks.lista_cpus };
  cola_exit = s.cola_exit ++ record p { fd_cpu = menos_uno; estado = Estado.exit } ∷ [];
  avisos_km = s.avisos_km ++ p.pid ∷ [];
}

-- The thread of MEM_ALLOC starts with the process, if it was running.
abbrev pub lanzar : Sistema → Option Proceso × EstadoKs → Sistema
lanzar s (none, ks) = record s { ks = ks }
lanzar s (some p, ks) = record s { ks = ks; en_memoria = s.en_memoria ++ p ∷ [] }

-- The syscalls MEM_ALLOC and MEM_FREE.
abbrev pub pedir_memoria : Sistema → ℤ → Sistema
pedir_memoria s pid = lanzar s (sacar_proc_de_exec_para_mem s.ks pid)

-- `tabla` says that kernel memory has answered with the table of segments.
unfoldable pub manejar_mem_alloc : Sistema → Proceso → Bool → Sistema
manejar_mem_alloc s p true = record s { ks = redespachar_a_misma_cpu s.ks p }
manejar_mem_alloc s p false = finalizar_por_error_mem s p

unfoldable pub manejar_mem_free : Sistema → Proceso → Sistema
manejar_mem_free s p = record s { ks = redespachar_a_misma_cpu s.ks p }
