-- ===== src/Ks/Bloqueo/Generaciones.antt =====
-- Which block a suspension timer ends: kernel_scheduler/src/main.c.
