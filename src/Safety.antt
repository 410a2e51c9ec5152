-- ===== src/Safety.antt =====
-- What a request does, whatever the operating system answers and the other requests do: the paths
-- that may be held and the calls that may be made, by the methods, the requests and a server of
-- interleaved requests; and the calls that each procedure makes, by its arguments.
pub mod Permitted
pub mod Methods
pub mod Open
pub mod Pairs
pub mod Makes
pub mod Changing
pub mod Reading
pub mod Asked
pub mod Serve
pub mod Interleave
