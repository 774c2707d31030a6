-- ===== src/Python.antt =====
-- What the Python runtime gives the program: JSON values, floats and text, exceptions, methods.
pub mod Json
pub mod Files
pub mod Errors
pub mod Runtime
pub mod Methods
