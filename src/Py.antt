-- ===== src/Py.antt =====
-- The parts of Python's language and standard library that the program uses: text, exceptions,
-- effects, `int()` and `json.dumps`.
pub mod Str
pub mod Result
pub mod Exec
pub mod Number
pub mod Env
pub mod Json
