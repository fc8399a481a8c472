-- ===== src/Split.antt =====
-- The division of a delivery body into parts (delivery-outbox.js, splitDeliveryBody).
pub mod Body
pub mod Pieces
pub mod Turns
pub mod Fits
pub mod Whole
pub mod Tests
