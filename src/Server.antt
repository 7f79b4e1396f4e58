-- ===== src/Server.antt =====
-- src/server.c: the parts of the HTTP server that keep state of their own or decide on input.
pub mod Multipart
pub mod Paths
pub mod Usage
pub mod Results
pub mod Submit
pub mod Options
pub mod Headers
pub mod Requests
pub mod Access
pub mod Upload
