-- ===== src/Ensayos.antt =====
-- Tests: each property of the parts at concrete inputs.
mod Utils
mod Memoria
mod Segmentos
mod Compactacion
mod Cpu
mod Accesos
mod Prioridad
mod Reserva
mod Ks
mod Swap
