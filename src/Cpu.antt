-- ===== src/Cpu.antt =====
-- The CPU module: cpu/src.
pub mod Mmu
pub mod Registros
pub mod Decode
pub mod Execute
pub mod MemorySticks
pub mod Memoria
