-- ===== src/Connector.antt =====
-- app/connectors/ and app/connector_lifecycle.py: connectors, what they declare and what they yield.
pub mod Version
pub mod Manifest
pub mod Payload
pub mod Ingestion
pub mod Instances
pub mod Runs
pub mod Upgrade
mod Examples
