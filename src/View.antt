-- ===== src/View.antt =====
-- projection/internal/view: the logical trees of a projection, the artifacts placed in them, and the
-- arbitration between artifacts that claim one path. Nodes has the nodes of one tree, Placement the
-- paths that artifacts get, Ops the state of the view and its mutators.
pub mod Nodes
pub mod Shown
pub mod Placement
pub mod Ops
pub mod Freshness
pub mod Queues
pub mod Roots
pub mod Arbitration
pub mod Changes
pub mod History
pub mod Records
pub mod Members
mod Tests
