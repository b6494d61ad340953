-- ===== src/Manager/Outcomes.antt =====
-- src/device_manager.rs: how `register_mmio_resources`, `register_pio_resources` and
-- `register_resources` can end, and what is registered then.
use vm_device.Prelude.{◌≡◌, ◌↔◌, refl, List, arith, done, panic, ok, err, ending, inl, inr}
use vm_device.Address.Mmio.{mmio_address}
use vm_device.Address.Pio.{pio_address}
use vm_device.Bus.View.{IsValid, view}
use vm_device.Resources.{Resource}
use vm_device.Manager.{IoManager}
use vm_device.Manager.Resourceful.{
  register_mmio_resources, register_pio_resources, register_resources,
}
use vm_device.Manager.Ranges.{
  register_all, pio_ranges, mmio_ranges, register_mmio_resources-all, register_pio_resources-all,
}
use vm_device.Manager.Registration.{
  IsSized, Ends, Registrable, set_ranges, register_all-Ends, register_all-ok_iff,
}

-- The sizes of the address ranges fit their types, u16 and u64.
pub record IsSizedResources (rs : List Resource) : Type 0 where
  pub pio : IsSized ⦃o = pio_address⦄ (pio_ranges rs)
  pub mmio : IsSized ⦃o = mmio_address⦄ (mmio_ranges rs)

-- The invariant of a manager: both buses are valid.
pub record IsValidManager {P M : Type 0} (t : IoManager P M) : Type 0 where
  pub pio : IsValid ⦃o = pio_address⦄ t.pio_bus
  pub mmio : IsValid ⦃o = mmio_address⦄ t.mmio_bus

module _ {P M : Type 0} where
  module _ (t : IoManager P M) (rs : List Resource) (v : IsValidManager t)
      (h : IsSizedResources rs) where
    -- `register_mmio_resources` keeps a valid manager valid and its PIO bus as it was, however it
    -- ends, for sizes that fit their types. It goes through the MMIO ranges of the resources in
    -- order: it panics at a range that is not valid, returns an error at a range that is not free,
    -- and succeeds if there is none of these; what it has registered before stays.
    pub register_mmio_resources-Ends :
        (d : M)
        → let (t', x) = register_mmio_resources t d rs in
          IsValidManager t'
          × (t'.pio_bus ≡ t.pio_bus)
          × Ends ⦃o = mmio_address⦄
              (view ⦃o = mmio_address⦄ t.mmio_bus)
              d
              (mmio_ranges rs)
              (view ⦃o = mmio_address⦄ t'.mmio_bus)
              x
    register_mmio_resources-Ends d =
        let (valid, ends) =
          register_all-Ends ⦃o = mmio_address⦄ t.mmio_bus d (mmio_ranges rs) v.mmio h.mmio in
        rw register_mmio_resources-all (record { pio = v.pio; mmio = valid }, refl, ends)

    -- `register_pio_resources` keeps a valid manager valid and its MMIO bus as it was, however it
    -- ends, for sizes that fit their types. It goes through the PIO ranges of the resources in
    -- order: it panics at a range that is not valid, returns an error at a range that is not free,
    -- and succeeds if there is none of these; what it has registered before stays.
    pub register_pio_resources-Ends :
        (d : P)
        → let (t', x) = register_pio_resources t d rs in
          IsValidManager t'
          × (t'.mmio_bus ≡ t.mmio_bus)
          × Ends ⦃o = pio_address⦄
              (view ⦃o = pio_address⦄ t.pio_bus)
              d
              (pio_ranges rs)
              (view ⦃o = pio_address⦄ t'.pio_bus)
              x
    register_pio_resources-Ends d =
        let (valid, ends) =
          register_all-Ends ⦃o = pio_address⦄ t.pio_bus d (pio_ranges rs) v.pio h.pio in
        rw register_pio_resources-all (record { pio = valid; mmio = v.mmio }, refl, ends)

    -- The whole registration of a device, on both buses.
    module _ {T : Type 0} (as_mmio : T → M) (as_pio : T → P) (d : T) where
      register_resources-split : register_resources as_mmio as_pio t d rs ≡ (
          let (m, x) = register_all ⦃o = mmio_address⦄ t.mmio_bus (as_mmio d) (mmio_ranges rs) in
          let (p, y) = register_all ⦃o = pio_address⦄ t.pio_bus (as_pio d) (pio_ranges rs) in
          elim x [
            | done (ok _) ↦ (record { pio_bus = p; mmio_bus = m }, y)
            | done (err e) ↦ (record t { mmio_bus = m }, done (err e))
            | panic ↦ (record t { mmio_bus = m }, panic)
          ])
      unfolding register_resources
      register_resources-split =
          rw (register_mmio_resources-all, register_resources)
            (elim (ending
              (register_all ⦃o = mmio_address⦄ t.mmio_bus (as_mmio d) (mmio_ranges rs)).1) [
                | inl e ↦
                    rw (e, register_mmio_resources-all) (register_pio_resources-all _ (as_pio d) rs)
                | inr (inl (x, e)) ↦ rw (e, register_mmio_resources-all)
                | inr (inr e) ↦ rw (e, register_mmio_resources-all)
              ])

      pub register_resources-both :
          (register_resources as_mmio as_pio t d rs).1 ≡ done (ok tt)
          → let (m, x) = register_all ⦃o = mmio_address⦄ t.mmio_bus (as_mmio d) (mmio_ranges rs) in
            let (p, y) = register_all ⦃o = pio_address⦄ t.pio_bus (as_pio d) (pio_ranges rs) in
            (x ≡ done (ok tt))
            × (y ≡ done (ok tt))
            × ((register_resources as_mmio as_pio t d rs).0 ≡ record { pio_bus = p; mmio_bus = m })
      register_resources-both e =
          let e' = rw register_resources-split at e in
          rw register_resources-split
            (elim (ending
              (register_all ⦃o = mmio_address⦄ t.mmio_bus (as_mmio d) (mmio_ranges rs)).1) [
                | inl x ↦ rw x (refl, rw x at e', refl)
                | inr (inl (_, x)) ↦ absurd (ground arith)
                | inr (inr x) ↦ absurd (ground arith)
              ])

      -- `register_resources` succeeds exactly if the MMIO ranges and the PIO ranges are valid and
      -- free when their turn comes. This is for a valid manager and for sizes that fit their types.
      pub register_resources-ok_iff :
          ((register_resources as_mmio as_pio t d rs).1 ≡ done (ok tt)) ↔ (
            Registrable ⦃o = mmio_address⦄
              (view ⦃o = mmio_address⦄ t.mmio_bus)
              (as_mmio d)
              (mmio_ranges rs)
            × Registrable ⦃o = pio_address⦄
                (view ⦃o = pio_address⦄ t.pio_bus)
                (as_pio d)
                (pio_ranges rs))
      register_resources-ok_iff =
          let on_mmio =
            register_all-ok_iff ⦃o = mmio_address⦄ t.mmio_bus (as_mmio d) (mmio_ranges rs) v.mmio
              h.mmio in
          let on_pio =
            register_all-ok_iff ⦃o = pio_address⦄ t.pio_bus (as_pio d) (pio_ranges rs) v.pio
              h.pio in
          rw register_resources-split
            (elim (ending
              (register_all ⦃o = mmio_address⦄ t.mmio_bus (as_mmio d) (mmio_ranges rs)).1) [
                | inl e ↦ rw e (λ x. (on_mmio.0.0 e, on_pio.0.0 x), λ r. on_pio.0.1 r.1)
                | inr (inl (x, e)) ↦
                    rw e (λ x. absurd (cc), λ r. absurd (ground (arith, on_mmio.0.1 r.0)))
                | inr (inr e) ↦
                    rw e (λ x. absurd (cc), λ r. absurd (ground (arith, on_mmio.0.1 r.0)))
              ])

      -- After a `register_resources` that succeeds, each address of the ranges reads as the device,
      -- on its bus, and all other addresses read as before. This is for a valid manager and for
      -- sizes that fit their types.
      pub view-register_resources :
          (register_resources as_mmio as_pio t d rs).1 ≡ done (ok tt)
          → let t' = (register_resources as_mmio as_pio t d rs).0 in
            (view ⦃o = mmio_address⦄ t'.mmio_bus
              ≡ set_ranges ⦃o = mmio_address⦄
                  (view ⦃o = mmio_address⦄ t.mmio_bus)
                  (as_mmio d)
                  (mmio_ranges rs))
            × (view ⦃o = pio_address⦄ t'.pio_bus
                ≡ set_ranges ⦃o = pio_address⦄
                    (view ⦃o = pio_address⦄ t.pio_bus)
                    (as_pio d)
                    (pio_ranges rs))
      view-register_resources e =
          let (on_mmio, on_pio, both) = register_resources-both e in
          rw both (
            (register_all-ok_iff ⦃o = mmio_address⦄ t.mmio_bus (as_mmio d) (mmio_ranges rs) v.mmio
                  h.mmio).1
                on_mmio,
            (register_all-ok_iff ⦃o = pio_address⦄ t.pio_bus (as_pio d) (pio_ranges rs) v.pio
                  h.pio).1
                on_pio,
          )
