-- ===== src/Sockets/Termination.antt =====
-- The loop of recibir_paquete ends.
