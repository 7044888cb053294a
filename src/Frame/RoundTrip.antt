-- ===== src/Frame/RoundTrip.antt =====
-- What one device's transmitter draws on the line, another device's receiver reads as the same message.
use cec_controller.Common.{List}
