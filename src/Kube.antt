-- ===== src/Kube.antt =====
-- kube/: the commands that the cluster nodes replicate, the objects that they create, and the client
-- of the local cluster.
pub mod Resources
pub mod Client
pub mod Printing
