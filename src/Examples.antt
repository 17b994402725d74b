-- ===== src/Examples.antt =====
-- Tests of the definitions, and each theorem at a concrete input.
mod MemberWire
mod Shapes
mod Descriptor
mod NativeArgs
mod Routes
mod Cli
mod Store
mod Manager
mod Station
mod Pending
mod Defaults
mod Fragment
mod Reconciler
mod Leases
mod Abandon
