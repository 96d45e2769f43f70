-- ===== src/Ks/Memoria/Exclusiva.antt =====
-- Each step of the scheduler keeps a CPU for one process: kernel_scheduler/src/main.c.
use ssoo.Common.{
  ◌+◌, ◌≤◌, ◌≡◌, refl, sym, ap, ◌∙◌, Option, none, some, Option-cases, List, [], ◌∷◌, ◌++◌, Bool,
  true, false, uno_si, not, ℤ, menos_uno, int_eq, int_eq→eq, Bool-cases, inl, inr, arith,
}
use ssoo.Ks.Planificador.{
  Estado, Proceso, EstadoKs, encolar_en_ready, encolar_al_frente_en_ready, verificar_preemption,
  hay_cpu_libre, elegir_victima, desalojar, planificar, elegir, tomar_cpu, despachar, separar,
  salir_de_exec, sacar_de_exec,
}
use ssoo.Ks.Memoria.{
  quitar_cpu, separar_fd, rescatar, desconectar_cpu, Sistema, conectar_cpu, para_mem,
  sacar_proc_de_exec_para_mem, redespachar_a_misma_cpu, finalizar_por_error_mem, lanzar,
  manejar_mem_alloc, manejar_mem_free,
}
use ssoo.Ks.Memoria.Reparto.{
  libres, en_cpu, en_cpu_opcion, en_cpu-append, en_cpu-uno, libres-append, en_cpu-marcar,
  libres-tomar_cpu, libres-liberar_cpu, libres-quitar_cpu, en_cpu-separar_fd, en_cpu-separar,
}
use ssoo.Ks.Memoria.Pasos.{
  uso_ks, uso, Paso, conectar, desconectar, encolar, al_frente, ronda, sacar, pedir, alloc, free,
  Alcanzable, inicio, sigue,
}

desalojar-uso :
    (fd : ℤ) (s : EstadoKs) (o : Option Proceso) → uso_ks fd (desalojar s o) ≡ uso_ks fd s
desalojar-uso fd s none = refl
desalojar-uso fd s (some v) = rw (en_cpu-marcar fd v.pid s.cola_exec) refl

verificar_preemption-uso :
    (fd : ℤ) (s : EstadoKs) (p : Proceso) → uso_ks fd (verificar_preemption s p) ≡ uso_ks fd s
unfolding verificar_preemption
verificar_preemption-uso fd s p = elim (Bool-cases (not s.queue_preemption)) [
  | inl e ↦ rw (verificar_preemption, e) refl
  | inr e ↦ elim (Bool-cases (hay_cpu_libre s.lista_cpus)) [
    | inl d ↦ rw (verificar_preemption, e, d) refl
    | inr d ↦
        rw (verificar_preemption, e, d)
          (desalojar-uso fd s (elegir_victima p.prioridad s.cola_exec none))
  ]
]

planificar-uso : (fd : ℤ) (s : EstadoKs) → uso_ks fd (planificar s) ≡ uso_ks fd s
unfolding planificar despachar
planificar-uso fd s = elim (Option-cases (elegir s.colas_ready)) [
  | inl e ↦ rw (planificar, e) refl
  | inr ((nivel, p, resto), e) ↦ elim (Option-cases (tomar_cpu s.lista_cpus)) [
    | inl d ↦ rw (planificar, e, d) refl
    | inr ((g, cpus), d) ↦
        let q : Proceso = record p {
          estado = Estado.exec;
          fd_cpu = g;
          gen_despacho = p.gen_despacho + 1;
        } in
        let a = libres-tomar_cpu fd s.lista_cpus g cpus d in
        let b = en_cpu-append fd s.cola_exec (q ∷ []) in
        let c = en_cpu-uno fd q in rw (planificar, e, d) (omega arith)
  ]
]

encolar_en_ready-uso :
    (fd : ℤ) (s : EstadoKs) (p : Proceso) → uso_ks fd (encolar_en_ready s p) ≡ uso_ks fd s
unfolding encolar_en_ready
encolar_en_ready-uso fd s p = verificar_preemption-uso fd _ p

encolar_al_frente_en_ready-uso :
    (fd : ℤ) (s : EstadoKs) (p : Proceso) → uso_ks fd (encolar_al_frente_en_ready s p) ≡ uso_ks fd s
unfolding encolar_al_frente_en_ready
encolar_al_frente_en_ready-uso fd s p = refl

salir_de_exec-uso :
    (fd : ℤ) (s : EstadoKs) (r : Option Proceso × List Proceso)
    → en_cpu_opcion fd r.0 + en_cpu fd r.1 ≤ en_cpu fd s.cola_exec
    → uso_ks fd (salir_de_exec s r).1 ≤ uso_ks fd s
salir_de_exec-uso fd s (none, otros) h = omega arith
salir_de_exec-uso fd s (some p, otros) h =
    let l = libres-liberar_cpu fd p.fd_cpu s.lista_cpus in omega arith

-- The search in EXEC loses no CPU and adds none.
separar-uso :
    (fd pid : ℤ) (qs : List Proceso)
    → let r = separar pid qs none [] in en_cpu_opcion fd r.0 + en_cpu fd r.1 ≤ en_cpu fd qs
unfolding en_cpu
separar-uso fd pid qs = let h = en_cpu-separar fd pid qs none [] in omega arith

lanzar-uso :
    (fd : ℤ) (s : Sistema) (r : Option Proceso × List Proceso)
    → en_cpu_opcion fd r.0 + en_cpu fd r.1 ≤ en_cpu fd s.ks.cola_exec
    → uso fd (lanzar s (para_mem s.ks r)) ≤ uso fd s
lanzar-uso fd s (none, otros) h = omega arith
lanzar-uso fd s (some p, otros) h =
    let q : Proceso = record p { preemptado = false } in
    let a = en_cpu-append fd s.en_memoria (q ∷ []) in let b = en_cpu-uno fd q in omega arith

redespachar-uso :
    (fd : ℤ) (s : EstadoKs) (p : Proceso)
    → uso_ks fd (redespachar_a_misma_cpu s p) ≡ uso_ks fd s + uno_si (int_eq p.fd_cpu fd)
unfolding redespachar_a_misma_cpu
redespachar-uso fd s p =
    let q : Proceso = record p { gen_despacho = p.gen_despacho + 1 } in
    let a = en_cpu-append fd s.cola_exec (q ∷ []) in let b = en_cpu-uno fd q in omega arith

en_cpu-medio :
    (fd : ℤ) (antes : List Proceso) (p : Proceso) (despues : List Proceso)
    → en_cpu fd (antes ++ p ∷ despues) ≡ uno_si (int_eq p.fd_cpu fd) + en_cpu fd (antes ++ despues)
unfolding en_cpu
en_cpu-medio fd antes p despues =
    let a = en_cpu-append fd antes (p ∷ despues) in
    let b = en_cpu-append fd antes despues in omega arith

finalizar-uso :
    (fd : ℤ) (s : Sistema) (p : Proceso)
    → uso fd (finalizar_por_error_mem s p) ≤ uso fd s + uno_si (int_eq p.fd_cpu fd)
unfolding finalizar_por_error_mem
finalizar-uso fd s p = let l = libres-liberar_cpu fd p.fd_cpu s.ks.lista_cpus in omega arith

manejar_mem_alloc-uso :
    (fd : ℤ) (s : Sistema) (p : Proceso) (tabla : Bool)
    → uso fd (manejar_mem_alloc s p tabla) ≤ uso fd s + uno_si (int_eq p.fd_cpu fd)
unfolding manejar_mem_alloc
manejar_mem_alloc-uso fd s p true = let r = redespachar-uso fd s.ks p in omega arith
manejar_mem_alloc-uso fd s p false = finalizar-uso fd s p

conectar_cpu-uso :
    (fd g : ℤ) (s : EstadoKs) → uso_ks fd (conectar_cpu s g) ≡ uso_ks fd s + uno_si (int_eq g fd)
unfolding libres
conectar_cpu-uso fd g s =
    let a = libres-append fd s.lista_cpus (record { fd = g; ocupada = false } ∷ []) in omega arith

conectar-uso :
    (fd g : ℤ) (s : Sistema)
    → uso g s ≡ 0
    → uso fd s ≤ 1
    → uso fd (record s { ks = conectar_cpu s.ks g }) ≤ 1
conectar-uso fd g s z h =
    let c = conectar_cpu-uso fd g s.ks in
    elim (Bool-cases (int_eq g fd)) [
      | inr e ↦ let d : uno_si (int_eq g fd) ≡ 0 = ap uno_si e in omega arith
      | inl e ↦
          let d : uno_si (int_eq g fd) ≡ 1 = ap uno_si e in
          let y : uso fd s ≡ 0 = ap (λ (x : ℤ). uso x s) (sym (int_eq→eq g fd e)) ∙ z in omega arith
    ]

rescatar-uso :
    (fd : ℤ) (s : EstadoKs) (r : Option Proceso × List Proceso)
    → en_cpu fd r.1 ≤ en_cpu fd s.cola_exec
    → uso_ks fd (rescatar s r) ≤ uso_ks fd s
rescatar-uso fd s (none, otros) h = omega arith
rescatar-uso fd s (some p, otros) h =
    let e =
      encolar_en_ready-uso fd (record s { cola_exec = otros })
        (record p { fd_cpu = menos_uno; preemptado = false; estado = Estado.ready }) in
    omega arith

desconectar_cpu-uso : (fd g : ℤ) (s : EstadoKs) → uso_ks fd (desconectar_cpu s g) ≤ uso_ks fd s
unfolding desconectar_cpu en_cpu
desconectar_cpu-uso fd g s =
    let q = libres-quitar_cpu fd g s.lista_cpus in
    let h = en_cpu-separar_fd fd g s.cola_exec none [] in
    let r =
      rescatar-uso fd (record s { lista_cpus = quitar_cpu g s.lista_cpus })
        (separar_fd g s.cola_exec none []) (omega arith) in
    omega arith

Paso-uso : (fd : ℤ) (s t : Sistema) → Paso s t → uso fd s ≤ 1 → uso fd t ≤ 1
unfolding sacar_de_exec sacar_proc_de_exec_para_mem manejar_mem_free
Paso-uso fd s _ (conectar g z) h = conectar-uso fd g s z h
Paso-uso fd s _ (desconectar g) h = let e = desconectar_cpu-uso fd g s.ks in omega arith
Paso-uso fd s _ (encolar p) h = let e = encolar_en_ready-uso fd s.ks p in omega arith
Paso-uso fd s _ (al_frente p) h = let e = encolar_al_frente_en_ready-uso fd s.ks p in omega arith
Paso-uso fd s _ ronda h = let e = planificar-uso fd s.ks in omega arith
Paso-uso fd s _ (sacar pid) h =
    let e =
      salir_de_exec-uso fd s.ks (separar pid s.ks.cola_exec none [])
        (separar-uso fd pid s.ks.cola_exec) in
    omega arith
Paso-uso fd s _ (pedir pid) h =
    let e =
      lanzar-uso fd s (separar pid s.ks.cola_exec none []) (separar-uso fd pid s.ks.cola_exec) in
    omega arith
Paso-uso fd s _ (alloc antes p despues tabla q) h =
    let a = manejar_mem_alloc-uso fd (record s { en_memoria = antes ++ despues }) p tabla in
    let m : en_cpu fd s.en_memoria ≡ uno_si (int_eq p.fd_cpu fd) + en_cpu fd (antes ++ despues) =
      ap (en_cpu fd) q ∙ en_cpu-medio fd antes p despues in
    omega arith
Paso-uso fd s _ (free antes p despues q) h =
    let a = redespachar-uso fd s.ks p in
    let m : en_cpu fd s.en_memoria ≡ uno_si (int_eq p.fd_cpu fd) + en_cpu fd (antes ++ despues) =
      ap (en_cpu fd) q ∙ en_cpu-medio fd antes p despues in
    omega arith

-- In every state that the scheduler reaches, by processes that enter READY at the end or at the front,
-- rounds of the planner, processes that leave EXEC, memory requests and their answers in any order,
-- CPUs that connect with a descriptor that nobody holds, and CPUs that are lost: at most one of the running processes
-- and of those that wait for memory holds a CPU, and if one does then the CPU is not free.
pub Alcanzable-exclusiva :
    (s : Sistema)
    → Alcanzable s
    → (fd : ℤ) → libres fd s.ks.lista_cpus + en_cpu fd s.ks.cola_exec + en_cpu fd s.en_memoria ≤ 1
unfolding libres en_cpu
Alcanzable-exclusiva _ (inicio colas queue_preemption) fd = omega arith
Alcanzable-exclusiva _ (sigue s t a p) fd = Paso-uso fd s t p (Alcanzable-exclusiva s a fd)
