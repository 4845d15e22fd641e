-- ===== src/Parameter/Additional.antt =====
-- What `MergeAdditionalParameters` returns.
