-- ===== src/Pkt/Tests.antt =====
-- Runs of the packet code of ngtcp2_pkt.c on small inputs.
mod Frames
mod Headers
mod Numbers
