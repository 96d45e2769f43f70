-- ===== src/Cpu/MemorySticks.antt =====
-- The sticks that a CPU knows: cpu/src/cpu_memory_sticks.h and cpu_memory_sticks.c. The registry is
-- never NULL, `realloc` never fails, and closing a connection and logging are left out.
pub mod Tabla
pub mod Conexion
pub mod Resolver
pub mod Capacidad
pub mod Fidelidad
pub mod Resuelve
