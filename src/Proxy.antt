-- ===== src/Proxy.antt =====
-- proxy/: the ports that a node opens for its cluster's services, and the forwarding of requests to
-- the local cluster or to a peer.
pub mod Ports
pub mod Forward
pub mod System
