-- ===== src/Py.antt =====
-- Python's `str`, as far as the components use it: a text is the list of its code points. The
-- methods are those of the language, and have no line of the repository to stand for.
pub mod Chars
pub mod Strip
pub mod Lines
pub mod Search
pub mod Result
pub mod Dict
pub mod Numbers
