-- ===== src/Sequence/Tests.antt =====
-- Runs of the circular comparison of gbnet/src/util.rs.
