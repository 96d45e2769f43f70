-- ===== src/Km.antt =====
-- The program Kernel Memory: kernel_memory/src/main.c.
pub mod Alta
pub mod Huecos
pub mod Procesos
pub mod Sticks
pub mod Segmentos
pub mod Fisica
pub mod Compactacion
pub mod Endpoints
