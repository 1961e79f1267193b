-- ===== src/Examples.antt =====
-- Runs of the theorems on small inputs.
mod Strings
mod Shapes
mod Copies
mod Memories
mod Setting
mod Requests
mod Found
mod Staging
mod Reading
mod Batches
mod Executions
mod Configurations
mod Instances
mod Directories
mod Outputs
mod BatchInputs
mod Tracking
