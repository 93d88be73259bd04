-- ===== src/Files/Uploads.antt =====
-- The name under which UploadFile stores a file.
