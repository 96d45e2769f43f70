-- ===== src/Utils.antt =====
-- The library that all the programs link: utils/src/utils.
pub mod Contexto
pub mod Mensaje
pub mod Protocolo
