-- ===== src/Coap.antt =====
-- src/smcp/coap.c and coap.h: the CoAP message format.
pub mod Option
pub mod Packet
pub mod Uint
pub mod Codes
pub mod ContentType
pub mod OptionKey
