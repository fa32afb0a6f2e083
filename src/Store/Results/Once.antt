-- ===== src/Store/Results/Once.antt =====
-- A snapshot of a run is stored once.
