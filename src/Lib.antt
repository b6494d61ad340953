-- ===== src/Lib.antt =====
-- A verification library for vm-device, a crate with which a virtual machine monitor finds the
-- device that an access to an I/O port (PIO) or to memory (MMIO) is for.
--
-- The parts, and the files that model them:
-- - src/bus/address.rs. `Address` is the trait `BusAddress` with its supertraits as an interface,
--   with the width of the value type as a field; `Address/Mmio` and `Address/Pio` are the two
--   implementations, of 64 and 16 bits. `Address/Laws` has the arithmetic of any address type,
--   `Address/Sums` that of the two types.
-- - src/bus/range.rs. `Range` is `BusRange`; `Range/Laws` is about its construction and its
--   addresses, `Range/Order` about the order by base, which sorts the map of a bus.
-- - src/bus/mod.rs. `Bus` has the operations of `Bus`, `Bus/Errors` its errors. `Bus/View` has its
--   invariant and its abstract view, a function from addresses to entries. `Bus/Lookup`,
--   `Bus/Register`, `Bus/Deregister`, `Bus/Access` and `Bus/Mutable` are about one operation each,
--   `Bus/Extensional` about the order of registrations and deregistrations, `Bus/History` about any
--   sequence of calls.
-- - src/resources.rs. `Resources` has `Resource` and `DeviceResources` with its getters,
--   `Resources/Constraint` has `ResourceConstraint`, `Resources/Laws` is about the getters.
-- - src/lib.rs. `Device` has the device traits, `Device/Arc` and `Device/Mutex` their
--   implementations for `Arc<T>` and `Mutex<T>`, `Device/Dummy` the device of the documentation.
--   `Device/Mutex/Laws` is about sequences of calls on a mutex. `Device/Locked` is the device of the
--   documentation and of the tests that has a mutex inside. `Threads` has several threads that call
--   methods behind mutexes at once, `Threads/Sequential` is about the order of such calls, and
--   `Threads/Progress` about their ends.
-- - src/device_manager.rs. `Manager` has the methods of the traits `PioManager` and `MmioManager` as
--   functions of a `BusManager`, and `IoManager`, which has one bus of each kind; `Manager/Traits` has
--   the traits and their implementations; `Manager/Resourceful` has the methods on
--   lists of resources. `Manager/Dispatch` says which device an access reaches,
--   `Manager/Ranges`, `Manager/Registration` and `Manager/Outcomes` how a registration ends,
--   `Manager/RoundTrip` is about deregistering what was registered, `Manager/Shared` about a
--   device on both buses, `Manager/History` about any sequence of calls on both,
--   `Manager/Machine` about any sequence of calls of every kind, with the world of the devices.
--   `Manager/Concurrent` has threads that share one manager, over the steps of `Threads`.
-- - src/interrupt. `Interrupt` has the traits as interfaces and the methods they provide,
--   `Interrupt/Legacy` and `Interrupt/Msi` the configurations and the order of the pins.
-- - The `Overflow` modules have what computes with addresses once more, for a build with overflow
--   checks. The `Display` modules have the texts of errors.
-- - The `UnitTests` modules have the unit tests of the source, and `Manager/DocTests` the examples in
--   its documentation, as programs that return or panic.
-- `Prelude` has what the files share, `BTreeMap` what the bus uses of the standard library's map.
-- The `Tests` modules have runs of the theorems.
--
-- How the parts interact: a manager checks an access with `check_access` of a bus, which makes a
-- range of the access and looks up its first address, and then calls the device with the base of
-- its range and the offset, the difference of two addresses.
--
-- The choices:
-- - A method with `&mut self` takes the object and returns it beside the result. A mutable
--   reference that is returned is a value with a function that writes another in its place.
-- - An address and a size are natural numbers. The operators `+` and `-` wrap around at the width,
--   which is what a release build does; in the `Overflow` modules they panic where the result does
--   not fit, which is what a build with overflow checks does. `checked_add` is written
--   out. That a number fits its type is a hypothesis where it is needed.
-- - A map is a list of entries in the order of their keys. Two keys that compare as equal are one
--   key.
-- - A call that can panic has an outcome, which is a value or a panic; what it changed before the
--   panic stays. The `unwrap` of an invalid range is such a panic.
-- - A device lies behind a reference and has inner mutability. A handle names it, and its calls take
--   and return the world. For `Mutex<T>` the world maps an address to the value and the mark of
--   poisoning, so that clones of one `Arc` are one handle and share the state.
-- - In `Device` and `Manager` calls do not overlap in time. In `Threads` and
--   `Manager/Concurrent` they do: a call waits for its lock, runs in steps, and releases the lock;
--   other threads run between the steps. A method does not lock another mutex from inside.
-- - All loops go over lists, or count down, and end with them. There is fuel in the printing of
--   numbers alone, one more than the number that is printed.
--
-- Not modelled: laws of the traits of src/interrupt, which have no implementation in the crate, and
-- the lifetimes of references. The machine has 64 bits where the width of `usize` matters.
pub mod Prelude
pub mod Address
pub mod Range
pub mod BTreeMap
pub mod Bus
pub mod Resources
pub mod Device
pub mod Interrupt
pub mod Threads
pub mod Manager
