-- ===== src/Wire.antt =====
-- wire/: the DHCPv4 message codec, the readers and writers of its options, and ARP.
pub mod Bytes
pub mod Option
pub mod Message
pub mod Codec
pub mod Values
pub mod UserClass
pub mod Vendor
pub mod Routes
pub mod Names
pub mod Arp
pub mod HmacMd5
pub mod Auth
pub mod Total
