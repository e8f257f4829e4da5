-- ===== src/Codes.antt =====
-- The result codes that the library's own operations produce: 0, or the negation of an `errno` value.
pub data Code : Type 0 where
  success epipe eagain ecanceled enotrecoverable eidrm : Code
