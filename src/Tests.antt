-- ===== src/Tests.antt =====
-- Runs of the model at fixed inputs, and each theorem at an input that meets its hypotheses.
mod Int64
mod Bng
mod Ints
mod Lexing
mod Interp
mod Io
mod Str
