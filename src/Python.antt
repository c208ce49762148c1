-- ===== src/Python.antt =====
-- The part of Python that the program's code rests on.
pub mod Result
pub mod Float
pub mod Value
pub mod Sorting
pub mod Decimal
