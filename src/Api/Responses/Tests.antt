-- ===== src/Api/Responses/Tests.antt =====
-- Responses to sample errors.
