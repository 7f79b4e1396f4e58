-- ===== src/Server/Upload/Complete.antt =====
-- The loop of src/server.c over the parts of an upload accepts any files within the limits.
