-- ===== src/Http.antt =====
-- src/http.c. `State` is the parsers' memory, `Header` the recogniser of the end of a header, `Request`
-- and `Response` the parsers of the two messages, `Value` the look-up of a header row, `Text` the
-- texts that are printed, `Rows` and `Announced` texts and header rows in memory, `Send` the
-- senders of responses, `Serve` the callbacks of the server, `Fetch` the client.
pub mod State
pub mod Header
pub mod Value
pub mod Request
pub mod Response
pub mod Text
pub mod Send
pub mod Serve
pub mod Fetch
pub mod Rows
pub mod Announced
