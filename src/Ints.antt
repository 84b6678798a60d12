-- ===== src/Ints.antt =====
-- byterun/ints.c: integers as OCaml values.
pub mod Exception
pub mod Parse
pub mod Boxed64
