-- ===== src/Pxf/Lexer.antt =====
-- crates/protowire-pxf/src/lexer.rs: `Lexer`. `Cursor` has the state and the moves, the others the
-- lexers of the kinds of token, and `Next` the dispatch. A method that takes `&mut self` returns
-- the new state. A panic, of `slice_to_string` on bytes that are no UTF-8, is `panics`.
pub mod Cursor
pub mod Quoted
pub mod Number
pub mod Next
pub mod Place
pub mod Middle
pub mod Moves
