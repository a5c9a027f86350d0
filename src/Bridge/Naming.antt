-- ===== src/Bridge/Naming.antt =====
-- The names under which Data leaves the bridge, daemon/fw/bridge-forwarder.cpp.
use nfd_pitless.Ndn.{Ndn}
use nfd_pitless.Face.{Face}
use nfd_pitless.Fw.{Forwarder}
