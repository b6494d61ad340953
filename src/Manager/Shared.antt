-- ===== src/Manager/Shared.antt =====
-- src/device_manager.rs and src/lib.rs: one device behind an `Arc<Mutex<T>>` on both buses.
use vm_device.Prelude.{ℕ, ◌≡◌, List, arith, done, ok, false, length}
use vm_device.Address.Mmio.{MmioAddress, mmio_address}
use vm_device.Address.Mmio
use vm_device.Address.Pio.{PioAddress, pio_address}
use vm_device.Address.Pio
use vm_device.Range.{BusRange}
use vm_device.Bus.Access.{check_access-ok_iff}
use vm_device.Device.{MutDevicePio, MutDeviceMmio}
use vm_device.Device.Arc.{Arc, arc_device}
use vm_device.Device.Mutex.{Mutex, World, mutex_device, with_lock}
use vm_device.Manager.{
  IoManager, bus_read, bus_write, pio_write, mmio_read, pio_manager, mmio_manager,
}
use vm_device.Manager.Dispatch.{Covers}
use vm_device.Manager.Outcomes.{IsValidManager}

module _ {T : Type 0} ⦃pio : MutDevicePio T⦄ ⦃mmio : MutDeviceMmio T⦄ where
  -- A device behind a mutex that is not poisoned has an entry on each bus of a valid manager. A
  -- write to a port that its entry covers and then a read at a memory address that its entry covers
  -- both succeed, where the device's own methods return: the read gives what the device gives in
  -- the state that the write left, and the mutex holds the state after both.
  pub pio_write-mmio_read :
      (t : IoManager (Arc (Mutex T)) (Arc (Mutex T))) (w : World T) (d : Arc (Mutex T))
      (r : BusRange PioAddress) (s : BusRange MmioAddress) (port : PioAddress) (addr : MmioAddress)
      (bytes buffer answer : List ℕ) (after later : T)
      → IsValidManager t
      → (w d.pointee.address).poisoned ≡ false
      → Covers ⦃o = pio_address⦄ t.pio_bus port r d (length bytes)
      → Covers ⦃o = mmio_address⦄ t.mmio_bus addr s d (length buffer)
      → pio.write (w d.pointee.address).inner r.base (Pio.sub port r.base) bytes ≡ (done tt, after)
      → mmio.read after s.base (Mmio.sub addr s.base) buffer ≡ (done answer, later)
      → let (x, w') = pio_write pio_manager t port bytes w in
        let (y, w'') = mmio_read mmio_manager t addr buffer w' in
        (x ≡ done (ok tt))
        × (y ≡ done (ok answer))
        × (w'' d.pointee.address ≡ record { poisoned = false; inner = later })
  unfolding pio_write mmio_read pio_manager mmio_manager bus_read bus_write arc_device mutex_device
      with_lock pio_address mmio_address
  pio_write-mmio_read t w d r s port addr bytes buffer answer after later v healthy c e written
        read =
      let on_pio =
        (check_access-ok_iff ⦃o = pio_address⦄ t.pio_bus port (length bytes) v.pio r d).1 c in
      let on_mmio =
        (check_access-ok_iff ⦃o = mmio_address⦄ t.mmio_bus addr (length buffer) v.mmio s d).1 e in
      rw (on_pio, on_mmio, healthy, written) (ground arith)
