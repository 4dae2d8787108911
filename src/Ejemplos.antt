-- ===== src/Ejemplos.antt =====
-- The theorems at concrete inputs.
mod Carga
mod Consola
mod Ejecucion
mod Maquina
mod Memoria
mod Mensajes
mod Planificacion
mod Sistema
