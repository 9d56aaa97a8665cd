-- ===== src/Js.antt =====
-- The values of JavaScript that the client code handles.
pub mod Number
pub mod Value
pub mod Exception
pub mod Base64
