-- ===== src/WsClient.antt =====
-- ws_client.h and ws_client.cpp.
pub mod Frame
pub mod Receive
pub mod FrameBytes
pub mod FrameRoundTrip
pub mod ReceiveAppend
pub mod Overrun
pub mod Reassembly
pub mod Ending
pub mod Delivery
pub mod Send
pub mod SendLaws
pub mod DrainLaws
pub mod FlushLaws
pub mod Delivered
pub mod PartialWrite
pub mod Tests
pub mod Connection
pub mod CallbackLaws
pub mod SetUp
pub mod ConnectionLaws
pub mod Closing
pub mod ConnectionTests
pub mod Url
pub mod UrlLaws
pub mod Key
pub mod KeyLaws
pub mod RandomLaws
pub mod Handshake
pub mod HandshakeLines
pub mod HandshakeLaws
pub mod HandshakeSuccess
pub mod HandshakeTests
pub mod Worker
pub mod WorkerLaws
pub mod PollLoop
pub mod QueueLaws
