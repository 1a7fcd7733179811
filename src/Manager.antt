-- ===== src/Manager.antt =====
-- controllers/releasemanager_controller.go with the parts of controllers/incarnation.go,
-- controllers/syncer.go and controllers/garbagecollector.go that make up one reconciliation of a
-- release manager.
pub mod Collect
pub mod Collected
pub mod RoundTrip
pub mod Mark
pub mod Marked
pub mod Monitors
pub mod App
pub mod Sync
pub mod Served
pub mod Oldest
pub mod Ended
pub mod Final
pub mod Idle
pub mod Finalized
pub mod Reconcile
mod Samples
mod AppSamples
