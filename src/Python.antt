-- ===== src/Python.antt =====
-- What the program uses of its language: exceptions as values, floats, integers.
pub mod Result
pub mod Float
