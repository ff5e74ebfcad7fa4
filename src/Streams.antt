-- ===== src/Streams.antt =====
-- How received bytes become messages: the data sockets and the event channel.
pub mod Receiving
pub mod Messages
pub mod Cutting
pub mod Loop
pub mod DataSocket
pub mod Buffer
pub mod StringV
pub mod DataSocketV
pub mod Overwrites
pub mod TwoBuffers
pub mod StringHandler
pub mod Turns
pub mod Arrivals
pub mod Delivery
pub mod Delivered
pub mod DeliveredV
pub mod Texts
pub mod Endless
pub mod EventChannel
pub mod Events
pub mod BaseSocket
pub mod SendBytes
pub mod SendFile
mod Examples
