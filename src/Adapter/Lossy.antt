-- ===== src/Adapter/Lossy.antt =====
-- libsponge/tcp_helpers/lossy_fd_adapter.hh: an adapter that loses some of what it reads and writes.
use cpp_tcp.Common.{
  ℕ, ◌≡◌, Bool, true, false, ◌&&◌, not, ◌==◌, ltb, Option, none, some, if◌then◌else◌, to_u16, ◌≤◌,
  ◌<◌, arith, ◌^◌, ◌%◌, ◌⊎◌,
}
use cpp_tcp.Adapter.{FdAdapterConfig}

-- `LossyFdAdapter::_should_drop`; `drawn` is what `_rand()` gives.
unfoldable pub should_drop : FdAdapterConfig → ℕ → Bool → Bool
should_drop cfg drawn uplink =
    let loss = if uplink then cfg.loss_rate_up else cfg.loss_rate_dn in
    not (loss == 0) && ltb (to_u16 drawn) loss

-- `LossyFdAdapter::read` over the `read` of the adapter, which has been called when the lot is drawn.
unfoldable pub read :
    {Adapter Segment : Type 0}
    → (Adapter → FdAdapterConfig)
    → (Adapter → Option Segment × Adapter)
    → Adapter
    → ℕ
    → Option Segment × Adapter
read config adapter_read a drawn =
    let (ret, a') = adapter_read a in
    if should_drop (config a') drawn false then (none, a') else (ret, a')

-- `LossyFdAdapter::write`: what is sent, if anything is.
unfoldable pub write :
    {Adapter Segment Sent : Type 0}
    → (Adapter → FdAdapterConfig)
    → (Adapter → Segment → Sent)
    → Adapter
    → ℕ
    → Segment
    → Option Sent
write config adapter_write a drawn seg =
    if should_drop (config a) drawn true then none else some (adapter_write a seg)

-- Of the 2 ^ 16 numbers that can be drawn, exactly the first `loss` lose the segment: none does at the
-- rate 0.
pub should_drop_iff :
    (cfg : FdAdapterConfig) (drawn : ℕ)
    → (((should_drop cfg drawn true ≡ true) × (drawn % 2 ^ 16 < cfg.loss_rate_up))
        ⊎ ((should_drop cfg drawn true ≡ false) × (cfg.loss_rate_up ≤ drawn % 2 ^ 16)))
      × (((should_drop cfg drawn false ≡ true) × (drawn % 2 ^ 16 < cfg.loss_rate_dn))
          ⊎ ((should_drop cfg drawn false ≡ false) × (cfg.loss_rate_dn ≤ drawn % 2 ^ 16)))
unfolding should_drop
should_drop_iff cfg drawn = ground arith
