-- ===== src/Ks.antt =====
-- The kernel scheduler: kernel_scheduler/src.
pub mod Mutex
pub mod Planificador
pub mod Prioridad
pub mod Bloqueo
pub mod Memoria
